-- ===== src/Upload/Names.antt =====
-- The forms of Kubernetes names that the parsers test by regular expressions, each as the function
-- that the anchored expression computes.
use kuviewer.Base.{ℕ, Bool, true, false, ◌&&◌, ◌||◌, [], ◌∷◌, leb, ◌==◌, Text, all}

abbrev pub is_upper : ℕ → Bool
is_upper c = leb b'A' c && leb c b'Z'

abbrev pub is_lower : ℕ → Bool
is_lower c = leb b'a' c && leb c b'z'

abbrev pub is_digit : ℕ → Bool
is_digit c = leb b'0' c && leb c b'9'

-- `[A-Za-z0-9]` and `[a-z0-9]`.
unfoldable pub is_alnum : ℕ → Bool
is_alnum c = is_upper c || is_lower c || is_digit c

unfoldable pub is_lower_alnum : ℕ → Bool
is_lower_alnum c = is_lower c || is_digit c

-- `[-_.A-Za-z0-9]` and `[-a-z0-9]`.
unfoldable pub is_label_char : ℕ → Bool
unfolding is_alnum
is_label_char c = c == b'-' || c == b'_' || c == b'.' || is_alnum c

unfoldable pub is_dns_char : ℕ → Bool
unfolding is_lower_alnum
is_dns_char c = c == b'-' || is_lower_alnum c

-- What follows the first unit in `^E(?:M*E)?$`: nothing, or units of M of which the last is in E.
unfoldable pub ends_well : (ℕ → Bool) → (ℕ → Bool) → Text → Bool
ends_well edge mid [] = true
ends_well edge mid (c ∷ []) = edge c
ends_well edge mid (c ∷ d ∷ s) = mid c && ends_well edge mid (d ∷ s)

-- `^E(?:M*E)?$`.
unfoldable pub bracketed : (ℕ → Bool) → (ℕ → Bool) → Text → Bool
unfolding ends_well
bracketed edge mid [] = false
bracketed edge mid (c ∷ s) = edge c && ends_well edge mid s

-- `^E M*$`.
unfoldable pub headed : (ℕ → Bool) → (ℕ → Bool) → Text → Bool
headed edge mid [] = false
headed edge mid (c ∷ s) = edge c && all mid s

-- `/^[A-Za-z0-9](?:[-_.A-Za-z0-9]*[A-Za-z0-9])?$/`.
abbrev pub label_form : Text → Bool
label_form s = bracketed is_alnum is_label_char s

-- `/^[a-z0-9](?:[-a-z0-9]*[a-z0-9])?$/`.
abbrev pub dns_form : Text → Bool
dns_form s = bracketed is_lower_alnum is_dns_char s
