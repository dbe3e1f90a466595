-- ===== src/Config/Duration.antt =====
-- The durations of app/config.py, printed and read again.
use shelf_back.Base.{
  ℕ, zero, suc, ◌+◌, ◌*◌, ◌<◌, ◌≡◌, refl, sym, ap, ◌∙◌, true, false, ◌||◌, inl, inr, Option, none,
  some, [], ◌∷◌, ◌++◌, ◌==◌, ltb, arith, Bool-cases, ==_refl,
}
use mathlib.Core.List.{append-nil, append_assoc}
use Prim.Native.Nat.{◌/◌, ◌%◌}
use shelf_back.Base.Text.{Text, decimal, decimal_onto}
use shelf_back.Base.Exec.{ok}
use shelf_back.Config
use shelf_back.Config.{
  Digits, Cleaning, read_digits, component, count, is_given, limit, timedelta, total, from_groups,
  parse_groups, parse_timedelta_from_str,
}

-- The ASCII digits are digits, and the letters of the units are none.
pub record IsDigits (D : Digits) : Type 0 where
  pub digit : (n : ℕ) → n < 10 → D.value (48 + n) ≡ some n
  pub day : D.value b'd' ≡ none
  pub hour : D.value b'h' ≡ none
  pub minute : D.value b'm' ≡ none
  pub second : D.value b's' ≡ none

-- A number and its unit
unfoldable pub printed : ℕ → Option ℕ → Text
printed u none = []
printed u (some n) = decimal n ++ (u ∷ [])

decimal_onto-append :
    (fuel n : ℕ) (acc t : Text) → decimal_onto fuel n acc ++ t ≡ decimal_onto fuel n (acc ++ t)
unfolding decimal_onto
decimal_onto-append zero n acc t = refl
decimal_onto-append (suc fuel) n acc t = elim (Bool-cases (ltb n 10)) [
  | inl e ↦ rw e refl
  | inr e ↦ rw e (decimal_onto-append fuel (n / 10) ((48 + n % 10) ∷ acc) t)
]

module _ (D : Digits) (L : IsDigits D) where
  read_digit :
      (o : Option ℕ) (c d : ℕ) (s : Text)
      → D.value c ≡ some d
      → read_digits D o (c ∷ s) ≡ read_digits D (some (Config.step o d)) s
  unfolding read_digits
  read_digit o c d s h = rw (h, read_digits) refl

  read_other :
      (o : Option ℕ) (c : ℕ) (s : Text) → D.value c ≡ none → read_digits D o (c ∷ s) ≡ (o, c ∷ s)
  unfolding read_digits
  read_other o c s h = rw (h, read_digits) refl

  read_decimal_onto :
      (fuel n : ℕ) (s : Text)
      → n < fuel
      → read_digits D none (decimal_onto fuel n s) ≡ read_digits D (some n) s
  unfolding decimal_onto
  read_decimal_onto zero n s h = absurd (omega (arith, h))
  read_decimal_onto (suc fuel) n s h = elim (Bool-cases (ltb n 10)) [
    | inl e ↦
        let small : n % 10 ≡ n = ground (arith, e) in
        rw e (
          read_digit none (48 + n % 10) (n % 10) s (L.digit (n % 10) (omega arith))
          ∙ ap (λ m. read_digits D (some m) s) small)
    | inr e ↦
        let whole : n / 10 * 10 + n % 10 ≡ n = omega arith in
        let less : n / 10 < fuel = ground (arith, e, h) in
        rw e (
          read_decimal_onto fuel (n / 10) ((48 + n % 10) ∷ s) less
          ∙ (read_digit (some (n / 10)) (48 + n % 10) (n % 10) s (L.digit (n % 10) (omega arith))
              ∙ ap (λ m. read_digits D (some m) s) whole))
  ]

  -- Reading a printed number stops at its unit.
  read_printed :
      (u n : ℕ) (s : Text)
      → D.value u ≡ none
      → read_digits D none (printed u (some n) ++ s) ≡ (some n, u ∷ s)
  unfolding printed decimal
  read_printed u n s h =
      ap (read_digits D none) (
        append_assoc (decimal_onto (suc n) n []) (u ∷ []) s
        ∙ decimal_onto-append (suc n) n [] (u ∷ s))
      ∙ (read_decimal_onto (suc n) n (u ∷ s) (omega arith) ∙ read_other (some n) u s h)

  component-printed :
      (u n : ℕ) (s : Text)
      → D.value u ≡ none
      → component D u (printed u (some n) ++ s) ≡ (some n, s)
  unfolding component
  component-printed u n s h = rw (read_printed u n s h, ==_refl u) refl

  -- A group passes over what is printed for another unit.
  component-other :
      (u v n : ℕ) (s : Text)
      → D.value v ≡ none
      → (v == u) ≡ false
      → component D u (printed v (some n) ++ s) ≡ (none, printed v (some n) ++ s)
  unfolding component
  component-other u v n s h k = rw (read_printed v n s h, k) refl

  component-nil : (u : ℕ) → component D u [] ≡ (none, [])
  unfolding component read_digits
  component-nil u = refl

  component-own :
      (u : ℕ) (x : Option ℕ) (s : Text)
      → D.value u ≡ none
      → component D u s ≡ (none, s)
      → component D u (printed u x ++ s) ≡ (x, s)
  component-own u none s h k = unfold printed in k
  component-own u (some n) s h k = component-printed u n s h

  component-skip :
      (u v : ℕ) (x : Option ℕ) (s : Text)
      → D.value v ≡ none
      → (v == u) ≡ false
      → component D u s ≡ (none, s)
      → component D u (printed v x ++ s) ≡ (none, printed v x ++ s)
  component-skip u v none s h k e = unfold printed in e
  component-skip u v (some n) s h k e = component-other u v n s h k

-- The text of a duration, with the units that are given
unfoldable pub duration_text : Option ℕ → Option ℕ → Option ℕ → Option ℕ → Text
duration_text days hours minutes seconds =
    printed b'd' days ++ (printed b'h' hours ++ (printed b'm' minutes ++ printed b's' seconds))

module _ (D : Digits) (L : IsDigits D) where
  groups_of_text :
      (days hours minutes seconds : Option ℕ)
      → parse_groups D (duration_text days hours minutes seconds)
        ≡ from_groups days hours minutes seconds []
  unfolding parse_groups duration_text
  groups_of_text days hours minutes seconds =
      let t4 = printed b's' seconds ++ [] in
      let t3 = printed b'm' minutes ++ t4 in
      let t2 = printed b'h' hours ++ t3 in
      let skip4 = λ (u : ℕ) (k : (b's' == u) ≡ false).
        component-skip D L u b's' seconds [] L.second k (component-nil D L u) in
      let skip3 = λ (u : ℕ) (k : (b's' == u) ≡ false) (j : (b'm' == u) ≡ false).
        component-skip D L u b'm' minutes t4 L.minute j (skip4 u k) in
      let e1 =
        component-own D L b'd' days t2 L.day
          (component-skip D L b'd' b'h' hours t3 L.hour refl (skip3 b'd' refl refl)) in
      let e2 = component-own D L b'h' hours t3 L.hour (skip3 b'h' refl refl) in
      let e3 = component-own D L b'm' minutes t4 L.minute (skip4 b'm' refl) in
      let e4 = component-own D L b's' seconds [] L.second (component-nil D L b's') in
      rw (sym (append-nil (printed b's' seconds))) (rw (e1, e2, e3, e4) refl)

  -- A duration that is printed with its units in the order days, hours, minutes, seconds, one of them at
  -- least given, is read as that many seconds, when the text has nothing to be stripped or lowered and
  -- the number is in the range of `timedelta`.
  pub parse-duration_text :
      (T : Cleaning) (days hours minutes seconds : Option ℕ)
      → T.lower (T.strip (duration_text days hours minutes seconds))
        ≡ duration_text days hours minutes seconds
      → (is_given days || (is_given hours || (is_given minutes || is_given seconds))) ≡ true
      → total days hours minutes seconds < limit
      → parse_timedelta_from_str D T (duration_text days hours minutes seconds)
        ≡ ok (total days hours minutes seconds)
  unfolding parse_timedelta_from_str from_groups timedelta
  parse-duration_text T days hours minutes seconds clean given small =
      ap (parse_groups D) clean
      ∙ (groups_of_text days hours minutes seconds
          ∙ (let fits : ltb (total days hours minutes seconds) (limit) ≡ true =
                ground (arith, small) in
              rw (given, fits) refl))
