-- ===== src/Shared/ReplayDetector/Acceptance.antt =====
-- What `check` and `accept` do to the numbers tracked by the window.
use ortc.Common.{
  ℕ, ◌+◌, ◌-◌, ◌%◌, ◌≤◌, ◌<◌, ◌≡◌, sym, ◌∙◌, Bool, true, false, List, ◌∷◌, ==_iff, Bool-cases, inl,
  inr, ltb, arith, max,
}
use native.Mathlib.Nat.{mod-eq_of_lt}
use ortc.Shared.FixedBigInt.Ops.{lsh-IsValid, set_bit-IsValid, lsh-n, set_bit-n}
use ortc.Shared.ReplayDetector.{SlidingWindowDetector, check, accept, move_head, mark}
use ortc.Shared.ReplayDetector.Window.{Tracks, lsh-Marks, set_bit-Marks}

check-taken :
    (d : SlidingWindowDetector) (seq : ℕ)
    → (check d seq).1 ≡ true
    → (check d seq).0 ≡ record d { accepted = true; seq = seq }
unfolding check
check-taken d seq h = ground arith

check-refused :
    (d : SlidingWindowDetector) (seq : ℕ)
    → (check d seq).1 ≡ false
    → (check d seq).0 ≡ record d { accepted = false }
unfolding check
check-refused d seq h = ground arith

check-max_seq : (d : SlidingWindowDetector) (seq : ℕ) → (check d seq).1 ≡ true → seq ≤ d.max_seq
unfolding check
check-max_seq d seq h = ground arith

move_head-seq : (d : SlidingWindowDetector) → (move_head d).seq ≡ d.seq
unfolding move_head
move_head-seq d = ground arith

move_head-accepted : (d : SlidingWindowDetector) → (move_head d).accepted ≡ d.accepted
unfolding move_head
move_head-accepted d = ground arith

move_head-latest_seq :
    (d : SlidingWindowDetector)
    → 1 ≤ d.window_size
    → d.latest_seq < d.window_size + d.seq
    → (d.seq ≤ (move_head d).latest_seq)
      × ((move_head d).latest_seq < (move_head d).window_size + d.seq)
unfolding move_head
move_head-latest_seq d w h = ground arith

move_head-Tracks :
    (d : SlidingWindowDetector) (seen : List ℕ)
    → Tracks d seen
    → d.seq ≤ d.max_seq
    → Tracks (move_head d) seen
unfolding move_head
move_head-Tracks d seen t h = elim (Bool-cases (ltb d.latest_seq d.seq)) [
  | inr e ↦ rw e t
  | inl e ↦ rw e (record {
    valid = lsh-IsValid d.mask (d.seq - d.latest_seq) t.valid;
    size = lsh-n d.mask (d.seq - d.latest_seq) ∙ t.size;
    marks =
        lsh-Marks d.mask d.window_size d.latest_seq d.seq seen t.valid t.size (ground (arith, e))
          t.latest t.marks;
    latest = λ n g. ground (arith, t.latest n g);
    bounds = ground (arith, t.bounds);
  })
]

mark-Tracks :
    (d : SlidingWindowDetector) (seen : List ℕ)
    → Tracks d seen
    → d.seq ≤ d.latest_seq
    → d.latest_seq < d.window_size + d.seq
    → Tracks (mark d) (d.seq ∷ seen)
unfolding mark
mark-Tracks d seen t h g = record {
  valid = set_bit-IsValid d.mask ((d.latest_seq - d.seq) % d.max_seq) t.valid;
  size = set_bit-n d.mask ((d.latest_seq - d.seq) % d.max_seq) ∙ t.size;
  marks =
      set_bit-Marks d.mask d.window_size d.latest_seq d.seq ((d.latest_seq - d.seq) % d.max_seq)
        seen t.valid t.size h (mod-eq_of_lt (ground (arith, t.bounds))) t.marks;
  latest = λ n c. ground (arith, t.latest n, ==_iff n d.seq);
  bounds = t.bounds;
}

mark-Tracks_at :
    (d : SlidingWindowDetector) (seen : List ℕ) (seq : ℕ)
    → d.seq ≡ seq
    → Tracks d seen
    → seq ≤ d.latest_seq
    → d.latest_seq < d.window_size + seq
    → Tracks (mark d) (seq ∷ seen)
mark-Tracks_at d seen seq e t h g =
    rw (sym e) (mark-Tracks d seen t (omega (arith, h, e)) (omega (arith, g, e)))

check-window :
    (d : SlidingWindowDetector) (seen : List ℕ) (seq : ℕ)
    → Tracks d seen
    → (check d seq).1 ≡ true
    → d.latest_seq < d.window_size + seq
unfolding check
check-window d seen seq t h = ground (arith, t.bounds)

-- What is tracked is read of the fields that `check` leaves alone.
Tracks-flags :
    (d : SlidingWindowDetector) (seen : List ℕ) (b : Bool) (seq : ℕ)
    → Tracks d seen
    → Tracks (record d { accepted = b; seq = seq }) seen
Tracks-flags d seen b seq t = record {
  valid = t.valid;
  size = t.size;
  marks = t.marks;
  latest = t.latest;
  bounds = t.bounds;
}

pub refused-Tracks :
    (d : SlidingWindowDetector) (seen : List ℕ) (seq : ℕ)
    → Tracks d seen
    → (check d seq).1 ≡ false
    → Tracks (check d seq).0 seen
refused-Tracks d seen seq t h = rw (check-refused d seq h) (Tracks-flags d seen false d.seq t)

pub taken-Tracks :
    (d : SlidingWindowDetector) (seen : List ℕ) (seq : ℕ)
    → Tracks d seen
    → (check d seq).1 ≡ true
    → Tracks (check d seq).0 seen
taken-Tracks d seen seq t h = rw (check-taken d seq h) (Tracks-flags d seen true seq t)

-- Marking a number that has passed the check adds it to the numbers accepted.
pub accept-Tracks :
    (d : SlidingWindowDetector) (seen : List ℕ) (seq : ℕ)
    → Tracks d seen
    → (check d seq).1 ≡ true
    → Tracks (accept (check d seq).0) (seq ∷ seen)
unfolding accept
accept-Tracks d seen seq t h =
    let e : SlidingWindowDetector = record d { accepted = true; seq = seq } in
    let moved = move_head-Tracks e seen (Tracks-flags d seen true seq t) (check-max_seq d seq h) in
    let (a, b) = move_head-latest_seq e (t.bounds.0) (check-window d seen seq t h) in
    rw (check-taken d seq h) (mark-Tracks_at (move_head e) seen seq (move_head-seq e) moved a b)

pub accept-fields :
    (d : SlidingWindowDetector) (seq : ℕ)
    → (check d seq).1 ≡ true
    → ((accept (check d seq).0).latest_seq ≡ max d.latest_seq seq)
      × ((accept (check d seq).0).window_size ≡ d.window_size)
      × ((accept (check d seq).0).max_seq ≡ d.max_seq)
unfolding accept move_head mark
accept-fields d seq h = rw (check-taken d seq h) (ground arith)

pub check-fields :
    (d : SlidingWindowDetector) (seq : ℕ)
    → ((check d seq).0.latest_seq ≡ d.latest_seq)
      × ((check d seq).0.window_size ≡ d.window_size)
      × ((check d seq).0.max_seq ≡ d.max_seq)
unfolding check
check-fields d seq = ground arith
