-- ===== src/Http/Status/Laws.antt =====
-- The texts of the status codes against their numbers.
use simple_serv.Common.{
  ℕ, ◌+◌, ◌/◌, ◌%◌, ◌≡◌, ◌≢◌, ◌↔◌, refl, [], ◌∷◌, Bytes, take, str_eq, str_eq_iff,
}
use simple_serv.Http.Status.{
  HttpStatusCode, continue, moved_permanently, found, status_value, status_code_to_string,
}

-- The decimal digits of a number below 1000
abbrev pub three_digits : ℕ → Bytes
three_digits n = (n / 100 + b'0') ∷ (n / 10 % 10 + b'0') ∷ (n % 10 + b'0') ∷ b' ' ∷ []

-- The text of a status begins with the number of the status and a space exactly when the status is
-- neither MOVED_PERMANENTLY nor FOUND.
pub status_code_to_string-status_value :
    (s : HttpStatusCode)
    → (take 4 (status_code_to_string s) ≡ three_digits (status_value s))
      ↔ ((s ≢ moved_permanently) × (s ≢ found))
unfolding status_code_to_string status_value str_eq
status_code_to_string-status_value continue = ((λ _. (cc, cc)), λ _. refl)
status_code_to_string-status_value moved_permanently =
    ((λ e. cc ((str_eq_iff _ _).1 e)), λ h. absurd (h.0 refl))
status_code_to_string-status_value found =
    ((λ e. cc ((str_eq_iff _ _).1 e)), λ h. absurd (h.1 refl))
status_code_to_string-status_value _ = ((λ _. (cc, cc)), λ _. refl)
