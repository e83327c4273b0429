-- ===== src/Format/Units.antt =====
-- fs_ui/src/format.ts: the unit that formatBytes shows.
use mathlib.Core.Path.{subst}
use native.Mathlib.Decide.{dec_lt}
use cuttlefish.Common.{
  ◌-◌, false, Option, Option-cases, ℕ, ◌+◌, ◌^◌, ◌≤◌, ◌<◌, ◌≡◌, refl, ◌≢◌, arith, String, some,
  none, get_elem?, ◌==◌, inl, inr, zero, suc,
}
use cuttlefish.Common.Text.{◌<>◌}
use cuttlefish.Format.{Print, format_bytes, sizes, unit_text}

get_elem?-sizes : (i : ℕ) → i < 6 → get_elem? sizes i ≢ none
get_elem?-sizes zero h = λ e. cc
get_elem?-sizes (suc zero) h = λ e. cc
get_elem?-sizes (suc (suc zero)) h = λ e. cc
get_elem?-sizes (suc (suc (suc zero))) h = λ e. cc
get_elem?-sizes (suc (suc (suc (suc zero)))) h = λ e. cc
get_elem?-sizes (suc (suc (suc (suc (suc zero))))) h = λ e. cc
get_elem?-sizes (suc (suc (suc (suc (suc (suc i)))))) h = absurd (omega arith)

get_elem?-past : (i : ℕ) → 6 ≤ i → get_elem? sizes i ≡ none
get_elem?-past zero h = absurd (omega arith)
get_elem?-past (suc zero) h = absurd (omega arith)
get_elem?-past (suc (suc zero)) h = absurd (omega arith)
get_elem?-past (suc (suc (suc zero))) h = absurd (omega arith)
get_elem?-past (suc (suc (suc (suc zero)))) h = absurd (omega arith)
get_elem?-past (suc (suc (suc (suc (suc zero))))) h = absurd (omega arith)
get_elem?-past (suc (suc (suc (suc (suc (suc i)))))) h = refl

pow-le-add : (a k : ℕ) → 1024 ^ a ≤ 1024 ^ (k + a)
pow-le-add a zero = subst (λ c. 1024 ^ a ≤ 1024 ^ c) {x = a} (omega arith) (omega arith)
pow-le-add a (suc k) =
    subst (λ c. 1024 ^ a ≤ 1024 ^ c) {x = suc (k + a)} (omega arith) (omega (arith, pow-le-add a k))

pow_mono : (a b : ℕ) → a ≤ b → 1024 ^ a ≤ 1024 ^ b
pow_mono a b h =
    subst (λ c. 1024 ^ a ≤ 1024 ^ c) {x = b - a + a} (omega arith) (pow-le-add a (b - a))

log-lt : (e n : ℕ) → 1024 ^ e ≤ n → n < 1024 ^ 6 → e < 6
log-lt e n below small = elim (dec_lt e 6) [
  | yes h ↦ h
  | no h ↦ absurd (omega (arith, pow_mono 6 e (omega arith)))
]

log-ge : (e n : ℕ) → n < 1024 ^ (e + 1) → 1024 ^ 6 ≤ n → 6 ≤ e
log-ge e n above large = elim (dec_lt e 6) [
  | yes h ↦ absurd (omega (arith, pow_mono (e + 1) 6 (omega arith)))
  | no h ↦ omega arith
]

format_bytes-eq :
    (p : Print) (n : ℕ) (u : Option String)
    → 0 < n
    → get_elem? sizes (p.log_1024 n) ≡ u
    → format_bytes p n ≡ p.two_places n (p.log_1024 n) <> " " <> unit_text u
unfolding format_bytes
format_bytes-eq p n u pos e =
    let not_zero : (n == 0) ≡ false = ground arith in rw (not_zero, e) refl

-- A size from one byte to less than 1024 ^ 6 is shown with a unit of the table, the one of its
-- logarithm, where `log_1024` is at most the logarithm of the size.
pub format_bytes-unit :
    (p : Print) (n : ℕ)
    → 0 < n
    → 1024 ^ p.log_1024 n ≤ n
    → n < 1024 ^ 6
    → (u : String) × (get_elem? sizes (p.log_1024 n) ≡ some u)
      × (format_bytes p n ≡ p.two_places n (p.log_1024 n) <> " " <> u)
format_bytes-unit p n pos below small = elim (Option-cases (get_elem? sizes (p.log_1024 n))) [
  | inl e ↦ absurd (get_elem?-sizes _ (log-lt _ n below small) e)
  | inr (u, e) ↦ (u, e, format_bytes-eq p n (some u) pos e)
]

-- A size of 1024 ^ 6 bytes and more is shown with the unit "undefined", where `log_1024` is the whole
-- part of the logarithm or more.
format_bytes-undefined :
    (p : Print) (n : ℕ)
    → n < 1024 ^ (p.log_1024 n + 1)
    → 1024 ^ 6 ≤ n
    → format_bytes p n ≡ p.two_places n (p.log_1024 n) <> " " <> "undefined"
format_bytes-undefined p n above large =
    format_bytes-eq p n none (omega arith) (get_elem?-past _ (log-ge _ n above large))
