-- ===== src/CreditCard/Currencies.antt =====
-- What the columns of a statement hold beyond its dates: a currency code of three capital letters, and a
-- reason that is not blank (`validateHeaderFields` and `boundedReason` of
-- backend/internal/creditcard/service.go).
use wealth_management.Prelude.{
  ℕ, ◌+◌, ◌≤◌, ◌≡◌, refl, ap, ◌∙◌, subst, Bool, true, ◌&&◌, ◌||◌, List, [], ◌∷◌, map, All, all,
  length, leb, ◌==◌, arith,
}
use wealth_management.Prelude.Text.{Text, text_eq, text_eq_iff, is_space, trim_space, byte_len}
use wealth_management.Prelude.Text.Trim.{
  btrim, trim_space_trimmed, btrim-trim_space, trim_space-map, length-byte_len, byte_len-length,
}
use wealth_management.Currency.{is_iso4217}
use wealth_management.CreditCard.Action.{ok}
use wealth_management.CreditCard.Rules.{bounded_reason}

-- `^[A-Z]{3}$`.
unfoldable pub is_code : Text → Bool
unfolding all
is_code t = all (λ c. leb 65 c && leb c 90) t && length t == 3

-- `char_length(btrim(t)) between 1 and 500`.
unfoldable pub is_bounded_reason : Text → Bool
unfolding btrim
is_bounded_reason t = leb 1 (length (btrim t)) && leb (length (btrim t)) 500

abbrev pub is_letter : ℕ → Bool
is_letter c = (leb 65 c && leb c 90) || (leb 97 c && leb c 122)

-- What is relied on of `currency.ParseISO`, which accepts three ASCII letters only, and of
-- `unicode.ToUpper`, which makes the small ones capital and neither makes nor removes space.
pub record Alphabet (upper_rune : ℕ → ℕ) (parse_iso : Text → Bool) : Type 0 where
  pub letters : (t : Text) → parse_iso t ≡ true → (length t ≡ 3) × All (λ c. is_letter c ≡ true) t
  pub capital : (c : ℕ) → 97 ≤ c → c ≤ 122 → upper_rune c + 32 ≡ c
  pub space : (c : ℕ) → is_space (upper_rune c) ≡ is_space c

module _ (upper_rune : ℕ → ℕ) (parse_iso : Text → Bool) (a : Alphabet upper_rune parse_iso) where
  head_of : List ℕ → ℕ
  head_of [] = 0
  head_of (c ∷ s) = c

  rest_of : List ℕ → List ℕ
  rest_of [] = []
  rest_of (c ∷ s) = s

  is_capital : (c : ℕ) → c ≡ upper_rune c → is_letter c ≡ true → (leb 65 c && leb c 90) ≡ true
  is_capital c e h = ground (arith, a.capital c)

  all_capital :
      (t : Text)
      → t ≡ map upper_rune t
      → All (λ c. is_letter c ≡ true) t
      → all (λ c. leb 65 c && leb c 90) t ≡ true
  unfolding all head_of rest_of
  all_capital [] e h = refl
  all_capital (c ∷ t) e (h, hs) =
      let c_capital = is_capital c (ap head_of e) h in
      let t_capital = all_capital t (ap rest_of e) hs in ground arith

  -- A code that is trimmed and passes the check is three capital letters.
  pub is_iso4217-is_code :
      (t : Text) → trim_space t ≡ t → is_iso4217 upper_rune parse_iso t ≡ true → is_code t ≡ true
  unfolding is_iso4217 is_code
  is_iso4217-is_code t e h =
      let h' : (text_eq t (map upper_rune t) && parse_iso t) ≡ true = rw e at h in
      let (n, ls) = a.letters t (ground arith) in
      let same = (text_eq_iff t (map upper_rune t)).0 (ground arith) in
      let capitals = all_capital t same ls in ground arith

  -- The same of a code as `applyHeaderCorrection` stores it.
  pub corrected-is_code :
      (given : Text)
      → is_iso4217 upper_rune parse_iso (map upper_rune (trim_space given)) ≡ true
      → is_code (map upper_rune (trim_space given)) ≡ true
  corrected-is_code given h =
      is_iso4217-is_code (map upper_rune (trim_space given))
        (trim_space-map upper_rune a.space (trim_space given)
          ∙ ap (map upper_rune) (trim_space_trimmed given))
        h

pub bounded_reason-is_bounded :
    (given reason : Text) → bounded_reason given ≡ ok reason → is_bounded_reason reason ≡ true
unfolding bounded_reason is_bounded_reason
bounded_reason-is_bounded given reason h =
    let same : trim_space given ≡ reason = ground arith in
    let b : btrim reason ≡ reason = subst (λ t. btrim t ≡ t) same (btrim-trim_space given) in
    let low : 1 ≤ byte_len reason = ground arith in
    let high : byte_len reason ≤ 500 = ground arith in
    rw b (ground (arith, length-byte_len reason, byte_len-length reason low))
