-- ===== src/Entry/Equality.antt =====
-- model.rs, deadline.rs: the equality that is derived for windows and deadlines, and that of lists.
use kyb.Common.{
  ℕ, Bool, true, false, ◌&&◌, ◌≡◌, refl, Option, none, some, List, [], ◌∷◌, Text, ◌==◌, eq_sound,
  eq_refl, eqb, arith,
}
use kyb.Deadline.{Deadline}
use kyb.Entry.{Window}

-- The derived `PartialEq` of lists, windows, options and deadlines.
unfoldable pub same_texts : List Text → List Text → Bool
same_texts [] [] = true
same_texts [] (t ∷ ts) = false
same_texts (s ∷ ss) [] = false
same_texts (s ∷ ss) (t ∷ ts) = s == t && same_texts ss ts

abbrev pub same_window : Window → Window → Bool
same_window v w = v.scope == w.scope && v.from == w.from && v.to == w.to

unfoldable pub same_windows : List Window → List Window → Bool
same_windows [] [] = true
same_windows [] (w ∷ ws) = false
same_windows (v ∷ vs) [] = false
same_windows (v ∷ vs) (w ∷ ws) = same_window v w && same_windows vs ws

abbrev pub same_flag : Bool → Bool → Bool
same_flag true b = b
same_flag false true = false
same_flag false false = true

abbrev pub same_days : Option ℕ → Option ℕ → Bool
same_days none none = true
same_days none (some n) = false
same_days (some m) none = false
same_days (some m) (some n) = eqb m n

unfoldable pub same_deadline : Deadline → Deadline → Bool
same_deadline c d =
    c.due == d.due
    && same_flag c.hard d.hard
    && same_days c.remind_days d.remind_days
    && c.waits_on == d.waits_on
    && c.expected == d.expected

pub same_texts_sound : (ss ts : List Text) → same_texts ss ts ≡ true → ss ≡ ts
unfolding same_texts
same_texts_sound [] [] h = refl
same_texts_sound [] (t ∷ ts) h = ground arith
same_texts_sound (s ∷ ss) [] h = ground arith
same_texts_sound (s ∷ ss) (t ∷ ts) h = ground (arith, eq_sound s t, same_texts_sound ss ts)

pub same_texts_refl : (ss : List Text) → same_texts ss ss ≡ true
unfolding same_texts
same_texts_refl [] = refl
same_texts_refl (s ∷ ss) = ground (arith, eq_refl s, same_texts_refl ss)

same_window_sound : (v w : Window) → same_window v w ≡ true → v ≡ w
same_window_sound v w h =
    let scope = eq_sound v.scope w.scope in
    let from = eq_sound v.from w.from in let to = eq_sound v.to w.to in ground arith

pub same_windows_sound : (vs ws : List Window) → same_windows vs ws ≡ true → vs ≡ ws
unfolding same_windows
same_windows_sound [] [] h = refl
same_windows_sound [] (w ∷ ws) h = ground arith
same_windows_sound (v ∷ vs) [] h = ground arith
same_windows_sound (v ∷ vs) (w ∷ ws) h =
    ground (arith, same_window_sound v w, same_windows_sound vs ws)

pub same_windows_refl : (vs : List Window) → same_windows vs vs ≡ true
unfolding same_windows
same_windows_refl [] = refl
same_windows_refl (v ∷ vs) =
    ground (arith, eq_refl v.scope, eq_refl v.from, eq_refl v.to, same_windows_refl vs)

pub same_deadline_sound : (c d : Deadline) → same_deadline c d ≡ true → c ≡ d
unfolding same_deadline
same_deadline_sound c d h =
    let due = eq_sound c.due d.due in
    let waits_on = eq_sound c.waits_on d.waits_on in
    let expected = eq_sound c.expected d.expected in ground arith

pub same_deadline_refl : (d : Deadline) → same_deadline d d ≡ true
unfolding same_deadline
same_deadline_refl d = ground (arith, eq_refl d.due, eq_refl d.waits_on, eq_refl d.expected)
