-- ===== src/Examples/Demo/Counts/Tallied.antt =====
-- What the demo's counts say, and that counting a frame keeps it so.
use gsusb_canfd.Prelude.{
  ℕ, suc, ◌+◌, ◌^◌, ◌≤◌, ◌<◌, ◌≡◌, refl, sym, ap, ◌∙◌, subst, true, leb, List, [], ◌∷◌, ◌++◌, u32,
  arith, Bool-cases, inl, inr,
}
use gsusb_canfd.Floats.{Double}
use gsusb_canfd.Text.{Bytes}
use gsusb_canfd.Frame.{CanFrame}
use gsusb_canfd.Examples.Demo.{Args, Notice, line}
use gsusb_canfd.Examples.Demo.Counts.{
  Tally, increment, is_wanted, is_shown, count_frame, show_frame, report, note_frame,
}

unfoldable pub sum_of : List (ℕ × ℕ) → ℕ
sum_of [] = 0
sum_of ((id, count) ∷ rest) = count + sum_of rest

-- Ids in ascending order from a bound on, each with a count that is not 0.
unfoldable pub IsAscending : (bound : ℕ) → List (ℕ × ℕ) → Type 0
IsAscending bound [] = Unit
IsAscending bound ((id, count) ∷ rest) = (bound ≤ id) × (0 < count) × IsAscending (suc id) rest

unfoldable pub IsOnly : (wanted : ℕ) → List (ℕ × ℕ) → Type 0
IsOnly wanted [] = Unit
IsOnly wanted ((id, count) ∷ rest) = (id ≡ wanted) × IsOnly wanted rest

-- One more frame of an id.
sum_of-increment :
    (id : ℕ) (counts : List (ℕ × ℕ))
    → suc (sum_of counts) < 2 ^ 32
    → sum_of (increment id counts) ≡ suc (sum_of counts)
unfolding increment sum_of
sum_of-increment id [] h = refl
sum_of-increment id ((key, count) ∷ rest) h =
    ground (arith, h, sum_of-increment id rest (omega (arith, h)))

increment-IsAscending :
    (bound id : ℕ) (counts : List (ℕ × ℕ))
    → bound ≤ id
    → suc (sum_of counts) < 2 ^ 32
    → IsAscending bound counts
    → IsAscending bound (increment id counts)
unfolding increment IsAscending sum_of
increment-IsAscending bound id [] low small h = (low, omega arith, tt)
increment-IsAscending bound id ((key, count) ∷ rest) low small h =
    let below : suc (sum_of rest) < 2 ^ 32 = omega (arith, small) in
    ground (
      arith,
      low,
      small,
      h,
      λ (above : suc key ≤ id). increment-IsAscending (suc key) id rest above below h.2,
    )

increment-IsOnly :
    (wanted id : ℕ) (counts : List (ℕ × ℕ))
    → id ≡ wanted
    → IsOnly wanted counts
    → IsOnly wanted (increment id counts)
unfolding increment IsOnly
increment-IsOnly wanted id [] e h = (e, tt)
increment-IsOnly wanted id ((key, count) ∷ rest) e h =
    ground (arith, e, h, increment-IsOnly wanted id rest e h.1)

-- How many of the messages are lines of frames.
unfoldable pub lines_of : {D : Type 0} → List (Notice D) → ℕ
lines_of [] = 0
lines_of (line bytes ∷ printed) = suc (lines_of printed)
lines_of (message ∷ printed) = lines_of printed

module _ {D : Type 0} (args : Args D) (base : ℕ) where
  -- What holds of the variables after a number of rounds, and of what is printed by then, where
  -- `base` lines of frames were printed before.
  pub record IsTally (rounds : ℕ) (printed : List (Notice D)) (t : Tally) : Type 0 where
    pub sum : sum_of t.counts ≡ t.total
    pub bound : t.total ≤ rounds
    pub window : t.window ≤ t.total
    pub ascending : IsAscending 0 t.counts
    pub only : args.filter_rx_id ≡ true → IsOnly args.rx_id t.counts
    pub lines : lines_of printed ≤ base + t.total
    pub every_line : args.print_all ≡ true → lines_of printed ≡ base + t.total

  pub later-IsTally :
      (rounds later : ℕ) (printed : List (Notice D)) (t : Tally)
      → rounds ≤ later
      → IsTally rounds printed t
      → IsTally later printed t
  later-IsTally rounds later printed t more h = record {
    sum = h.sum;
    bound = omega (arith, h.bound, more);
    window = h.window;
    ascending = h.ascending;
    only = h.only;
    lines = h.lines;
    every_line = h.every_line;
  }

  -- The total after one more frame, and the counts.
  counted-IsTally :
      (rounds : ℕ) (printed shown : List (Notice D)) (frame : CanFrame D) (t t' : Tally)
      → suc rounds < 2 ^ 32
      → is_wanted args frame ≡ true
      → t'.counts ≡ increment frame.id t.counts
      → t'.total ≡ u32 (t.total + 1)
      → t'.window ≤ u32 (t.window + 1)
      → lines_of shown ≤ suc (lines_of printed)
      → (args.print_all ≡ true → lines_of shown ≡ suc (lines_of printed))
      → IsTally rounds printed t
      → IsTally (suc rounds) shown t'
  counted-IsTally rounds printed shown frame t t' small wanted counts total window more every h =
      let below : suc (sum_of t.counts) < 2 ^ 32 = omega (arith, small, h.sum, h.bound) in
      let next : t'.total ≡ suc t.total = omega (arith, total, h.sum, below) in
      record {
        sum = ap sum_of counts ∙ sum_of-increment frame.id t.counts below ∙ ap suc h.sum ∙ sym next;
        bound = omega (arith, h.bound, next);
        window = omega (arith, h.window, window, next);
        ascending =
            subst (IsAscending 0) (sym counts)
              (increment-IsAscending 0 frame.id t.counts (omega arith) below h.ascending);
        only = λ on. subst (IsOnly args.rx_id) (sym counts) (
            increment-IsOnly args.rx_id frame.id t.counts (ground (arith, wanted, on)) (h.only on));
        lines = omega (arith, h.lines, more, next);
        every_line = λ on. omega (arith, h.every_line on, every on, next);
      }

  module _ (F : Double D) (seconds : D → Bytes) where
    -- A frame that is counted: with its line and the report, or without.
    pub note_frame-IsTally :
        (rounds now : ℕ) (printed : List (Notice D)) (frame : CanFrame D) (t : Tally)
        → suc rounds < 2 ^ 32
        → is_wanted args frame ≡ true
        → IsTally rounds printed t
        → IsTally
            (suc rounds)
            ((note_frame F seconds args now frame t).1 ++ printed)
            (note_frame F seconds args now frame t).0
    unfolding note_frame lines_of
    note_frame-IsTally rounds now printed frame t small wanted h =
        let counted = count_frame frame t in
        elim (Bool-cases (is_shown args frame counted)) [
          | inl e ↦ elim (Bool-cases (leb t.next_report now)) [
            | inl due ↦
                rw (e, due, show_frame, report)
                  (counted-IsTally rounds printed _ frame t _ small wanted refl refl (omega arith)
                    (omega arith) (λ on. refl) h)
            | inr e' ↦
                rw (e, e', show_frame, report)
                  (counted-IsTally rounds printed _ frame t _ small wanted refl refl (omega arith)
                    (omega arith) (λ on. refl) h)
          ]
          | inr e ↦ elim (Bool-cases (leb t.next_report now)) [
            | inl due ↦
                rw (e, due, show_frame, report)
                  (counted-IsTally rounds printed _ frame t _ small wanted refl refl (omega arith)
                    (omega arith) (λ on. ground (arith, e, on)) h)
            | inr e' ↦
                rw (e, e', show_frame, report)
                  (counted-IsTally rounds printed _ frame t _ small wanted refl refl (omega arith)
                    (omega arith) (λ on. ground (arith, e, on)) h)
          ]
        ]
