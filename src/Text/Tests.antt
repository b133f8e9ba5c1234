-- ===== src/Text/Tests.antt =====
-- Instances of the theorems on texts.
use is_rtsp_server.Base.{◌≡◌, refl, ◌↔◌, true, false, some, none, [], ◌∷◌, All}
use is_rtsp_server.Text.{str_is_unreserved, split_last, after_prefix}
use is_rtsp_server.Text.Unreserved.{rule, str_is_unreserved_lem}

str_is_unreserved_lem_example :
    (str_is_unreserved (some (b'a' ∷ b'1' ∷ [])) ≡ true)
    ↔ All (λ c. rule c ≡ true) (b'a' ∷ b'1' ∷ [])
str_is_unreserved_lem_example = str_is_unreserved_lem (b'a' ∷ b'1' ∷ [])

slash_refused : str_is_unreserved (some (b'a' ∷ b'/' ∷ [])) ≡ false
unfolding str_is_unreserved
slash_refused = refl

last_slash : split_last b'/' "a/b/c" ≡ some ("a/b", "c")
unfolding split_last
last_slash = refl

rest_of_prefix : (after_prefix "a/b" "a/b/c" ≡ some "/c") × (after_prefix "a/c" "a/b/c" ≡ none)
unfolding after_prefix
rest_of_prefix = (refl, refl)
