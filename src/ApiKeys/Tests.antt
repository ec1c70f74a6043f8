-- ===== src/ApiKeys/Tests.antt =====
-- Tests of the text of a key, and the example run of its theorem.
use rapid_inbox.Base.{
  [], eqb, Bool, Text, ◌∷◌, some, List, ℕ, All, codes, ◌≤◌, ◌≡◌, refl, ◌↔◌, length,
}
use rapid_inbox.Base.Result.{ok, err}
use rapid_inbox.ApiKeys.Plain.{invalid_key, split_max, parse_plain_text}
use rapid_inbox.ApiKeys.Checks.{plain_text, IsKey, parse_plain_text_iff}
use rapid_inbox.ApiKeys.Grants.{
  pattern_loop, normalize_mailbox_patterns, id_loop, unique_int_values, IsPattern, invalid_id,
}
use rapid_inbox.ApiKeys.Patterns.{normalize_mailbox_patterns_sound}
use rapid_inbox.Permissions.Scopes.{has}
use rapid_inbox.Permissions.Validation.{IsDistinct, stripped}

texts :
    (parse_plain_text (codes "ri_admin_ab_s_1") ≡ ok (codes "admin", codes "ab", codes "s_1"))
    × (parse_plain_text (codes "ri_root_ab_s") ≡ err invalid_key)
    × (parse_plain_text (codes "ri_admin__s") ≡ err invalid_key)
    × (parse_plain_text (codes "ri_admin_ab") ≡ err invalid_key)
unfolding split_max parse_plain_text
texts = (refl, refl, refl, refl)

parse_plain_text_iff_example :
    (parse_plain_text (codes "ri_admin_ab_s_1") ≡ ok (codes "admin", codes "ab", codes "s_1")) ↔ (
      (codes "ri_admin_ab_s_1" ≡ plain_text (codes "admin") (codes "ab") (codes "s_1"))
      × IsKey (codes "admin") (codes "ab") (codes "s_1")
      × (length (codes "ri_admin_ab_s_1") ≤ 512))
parse_plain_text_iff_example =
    parse_plain_text_iff (codes "ri_admin_ab_s_1") (codes "admin") (codes "ab") (codes "s_1")

abbrev given : List Text
given = codes " *@x.org" ∷ codes "a?@y.org" ∷ codes "*@x.org " ∷ []

abbrev kept : List Text
kept = codes "*@x.org" ∷ codes "a?@y.org" ∷ []

abbrev blank : ℕ → Bool
blank c = eqb c 32

given_kept : normalize_mailbox_patterns blank given ≡ ok kept
unfolding pattern_loop normalize_mailbox_patterns
given_kept = refl

ids :
    (unique_int_values (some 3 ∷ some 5 ∷ some 3 ∷ []) ≡ ok (3 ∷ 5 ∷ []))
    × (unique_int_values (some 3 ∷ some 0 ∷ []) ≡ err invalid_id)
unfolding id_loop unique_int_values
ids = (refl, refl)

normalize_mailbox_patterns_sound_example :
    (length given ≤ 100)
    × IsDistinct kept
    × All IsPattern kept
    × (has (codes "a?@y.org") kept ≡ has (codes "a?@y.org") (stripped blank given))
normalize_mailbox_patterns_sound_example =
    normalize_mailbox_patterns_sound blank given kept (codes "a?@y.org") given_kept
