-- ===== src/Shared/ReplayDetector/Wrapped/Steps.antt =====
-- `check` and `accept` of the detector that wraps, by where the number stands.
use ortc.Common.{ℕ, ◌+◌, ◌-◌, ◌/◌, ◌%◌, ◌^◌, ◌≤◌, ◌<◌, ◌≡◌, ap, sym, ◌∙◌, true, false, some, arith}
use ortc.Shared.FixedBigInt.{FixedBigInt, lsh, bit, set_bit}
use ortc.Shared.ReplayDetector.Wrapped.{
  WrappedSlidingWindowDetector, ℤ, check, accept, check_diff, accept_diff, initialise, wrapped_diff,
}

pub diff_behind :
    (m latest seq : ℕ)
    → latest ≤ m
    → seq ≤ latest
    → latest ≤ seq + m / 2
    → 2 ≤ m
    → wrapped_diff m latest seq ≡ ℤ.pos (latest - seq)
unfolding wrapped_diff
diff_behind m latest seq a b c e = ground arith

pub diff_ahead :
    (m latest seq : ℕ)
    → latest < seq
    → seq < latest + m / 2
    → wrapped_diff m latest seq ≡ ℤ.negsuc (seq - latest - 1)
unfolding wrapped_diff
diff_ahead m latest seq a b = ground arith

pub diff_over :
    (m latest seq : ℕ)
    → seq ≤ latest
    → seq + m / 2 < latest
    → latest ≤ m
    → wrapped_diff m latest seq ≡ ℤ.negsuc (m - (latest - seq))
unfolding wrapped_diff
diff_over m latest seq a b c = ground arith

pub diff_back :
    (m latest seq : ℕ)
    → latest + m / 2 ≤ seq
    → seq ≤ m
    → 2 ≤ m
    → wrapped_diff m latest seq ≡ ℤ.pos (latest + m + 1 - seq)
unfolding wrapped_diff
diff_back m latest seq a b c = ground arith

pub check-running :
    (d : WrappedSlidingWindowDetector) (seq : ℕ)
    → d.init ≡ true
    → seq ≤ d.max_seq
    → check d seq
      ≡ check_diff (record d { accepted = false }) seq (wrapped_diff d.max_seq d.latest_seq seq)
unfolding check initialise
check-running d seq i h = ground arith

abbrev pub taken : WrappedSlidingWindowDetector → ℕ → WrappedSlidingWindowDetector
taken d seq = record d { accepted = true; seq = seq }

pub check-behind :
    (d : WrappedSlidingWindowDetector) (seq k : ℕ)
    → d.init ≡ true
    → seq ≤ d.max_seq
    → wrapped_diff d.max_seq d.latest_seq seq ≡ ℤ.pos k
    → k < d.window_size
    → bit d.mask k ≡ 0
    → check d seq ≡ (taken d seq, true)
unfolding check_diff
check-behind d seq k i h e g z =
    check-running d seq i h ∙ ap (check_diff (record d { accepted = false }) seq) e ∙ ground arith

pub check-marked :
    (d : WrappedSlidingWindowDetector) (seq k : ℕ)
    → d.init ≡ true
    → seq ≤ d.max_seq
    → wrapped_diff d.max_seq d.latest_seq seq ≡ ℤ.pos k
    → bit d.mask k ≡ 1
    → (check d seq).1 ≡ false
unfolding check_diff
check-marked d seq k i h e z =
    ap (λ p. p.1) (check-running d seq i h)
    ∙ ap (λ n. (check_diff (record d { accepted = false }) seq n).1) e
    ∙ ground arith

pub check-ahead :
    (d : WrappedSlidingWindowDetector) (seq k : ℕ)
    → d.init ≡ true
    → seq ≤ d.max_seq
    → wrapped_diff d.max_seq d.latest_seq seq ≡ ℤ.negsuc k
    → check d seq ≡ (taken d seq, true)
unfolding check_diff
check-ahead d seq k i h e =
    check-running d seq i h ∙ ap (check_diff (record d { accepted = false }) seq) e

pub accept-behind :
    (d : WrappedSlidingWindowDetector) (seq k : ℕ)
    → wrapped_diff d.max_seq d.latest_seq seq ≡ ℤ.pos k
    → k < d.window_size
    → accept (taken d seq)
      ≡ some (record d {
        accepted = true;
        seq = seq;
        mask = set_bit d.mask ((d.latest_seq + 2 ^ 64 - seq) % 2 ^ 64);
      })
unfolding accept accept_diff
accept-behind d seq k e h = ap (accept_diff (taken d seq)) e ∙ ground arith

pub accept-ahead :
    (d : WrappedSlidingWindowDetector) (seq k : ℕ)
    → wrapped_diff d.max_seq d.latest_seq seq ≡ ℤ.negsuc k
    → accept (taken d seq)
      ≡ some (record d {
        accepted = true;
        seq = seq;
        mask = set_bit (lsh d.mask (k + 1)) ((seq + 2 ^ 64 - seq) % 2 ^ 64);
        latest_seq = seq;
      })
unfolding accept accept_diff
accept-ahead d seq k e = ap (accept_diff (taken d seq)) e

pub set_bit_out : (x : FixedBigInt) (j : ℕ) → x.n ≤ j → set_bit x j ≡ x
unfolding set_bit
set_bit_out x j h = ground arith

pub check-passed :
    (d : WrappedSlidingWindowDetector) (seq k : ℕ)
    → d.init ≡ true
    → seq ≤ d.max_seq
    → wrapped_diff d.max_seq d.latest_seq seq ≡ ℤ.pos k
    → (check d seq).1 ≡ true
    → (k < d.window_size) × (bit d.mask k ≡ 0)
unfolding check_diff
check-passed d seq k i h e c =
    let p : (check_diff (record d { accepted = false }) seq (ℤ.pos k)).1 ≡ true =
      sym (ap (λ n. (check_diff (record d { accepted = false }) seq n).1) e)
      ∙ sym (ap (λ p. p.1) (check-running d seq i h))
      ∙ c in
    ground arith
