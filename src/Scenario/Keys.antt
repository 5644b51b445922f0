-- ===== src/Scenario/Keys.antt =====
-- The tests' equality on keys is what the model asks of the database's.
use warehousd.Prelude.{String, ◌≡◌, true, Option, none, some, eq_iff, arith}
use warehousd.Revisions.Current.{IsKeyEquality}
use warehousd.Scenario.{text_key, same_keys, same_text}

same_keys_symmetric : (a b : Option String) → same_keys a b ≡ true → same_keys b a ≡ true
same_keys_symmetric none b e = absurd (cc)
same_keys_symmetric (some a) none e = absurd (cc)
same_keys_symmetric (some a) (some b) e = ground (arith, eq_iff a b, eq_iff b a)

same_keys_transitive :
    (a b c : Option String) → same_keys a b ≡ true → same_keys b c ≡ true → same_keys a c ≡ true
same_keys_transitive none b c e h = absurd (cc)
same_keys_transitive (some a) none c e h = absurd (cc)
same_keys_transitive (some a) (some b) none e h = absurd (cc)
same_keys_transitive (some a) (some b) (some c) e h =
    ground (arith, eq_iff a b, eq_iff b c, eq_iff a c)

pub same_text-IsKeyEquality : IsKeyEquality same_text
same_text-IsKeyEquality = record {
  symmetric = λ v w e. same_keys_symmetric (text_key v) (text_key w) e;
  transitive = λ u v w e h. same_keys_transitive (text_key u) (text_key v) (text_key w) e h;
}
