-- ===== src/Gateway/Topic.antt =====
-- splitTopic and messageTypeFromTopic of services/device_gateway/src/gateway_server.cc.
use device_ops.Prelude.{
  ℕ, ◌≡◌, refl, sym, ap, ◌∙◌, Bool, true, false, List, [], ◌∷◌, ◌++◌, append_assoc, append-nil,
  ◌==◌, ==_iff, Bool-cases, inl, inr, if◌then◌else◌,
}
use device_ops.Str.{Str, lit, str_eq}

split_loop : List Str → Str → Str → List Str
split_loop parts current [] = parts ++ current ∷ []
split_loop parts current (ch ∷ topic) =
    split_loop (if ch == b'/' then parts ++ current ∷ [] else parts)
      (if ch == b'/' then [] else current ++ ch ∷ []) topic

unfoldable pub split_topic : Str → List Str
unfolding split_loop
split_topic topic = split_loop [] [] topic

unfoldable pub type_of_parts : List Str → Str
type_of_parts (root ∷ device_id ∷ type ∷ []) =
    if str_eq root (lit "device") then type else lit "unknown"
type_of_parts parts = lit "unknown"

unfoldable pub message_type_from_topic : Str → Str
message_type_from_topic topic = type_of_parts (split_topic topic)

abbrev pub NoSlash : Str → Type 0
NoSlash [] = Unit {0}
NoSlash (c ∷ s) = ((c == b'/') ≡ false) × NoSlash s

abbrev pub AllNoSlash : List Str → Type 0
AllNoSlash [] = Unit {0}
AllNoSlash (p ∷ ps) = NoSlash p × AllNoSlash ps

-- The parts with a slash between each two.
abbrev pub join : Str → List Str → Str
join p [] = p
join p (q ∷ ps) = p ++ b'/' ∷ join q ps

split_loop-plain :
    (parts : List Str) (current : Str) (c : ℕ) (rest : Str)
    → (c == b'/') ≡ false
    → split_loop parts current (c ∷ rest) ≡ split_loop parts (current ++ c ∷ []) rest
unfolding split_loop
split_loop-plain parts current c rest h =
    ap
      (λ (b : Bool).
        split_loop (if b then parts ++ current ∷ [] else parts)
          (if b then [] else current ++ c ∷ []) rest)
      h

split_loop-slash :
    (parts : List Str) (current : Str) (c : ℕ) (rest : Str)
    → (c == b'/') ≡ true
    → split_loop parts current (c ∷ rest) ≡ split_loop (parts ++ current ∷ []) [] rest
unfolding split_loop
split_loop-slash parts current c rest h =
    ap
      (λ (b : Bool).
        split_loop (if b then parts ++ current ∷ [] else parts)
          (if b then [] else current ++ c ∷ []) rest)
      h

split_loop-part :
    (parts : List Str) (current p rest : Str)
    → NoSlash p
    → split_loop parts current (p ++ rest) ≡ split_loop parts (current ++ p) rest
split_loop-part parts current [] rest n =
    ap (λ c. split_loop parts c rest) (sym (append-nil current))
split_loop-part parts current (c ∷ p) rest n =
    split_loop-plain parts current c (p ++ rest) n.0
    ∙ split_loop-part parts (current ++ c ∷ []) p rest n.1
    ∙ ap (λ s. split_loop parts s rest) (append_assoc current (c ∷ []) p)

split_loop-last : (parts : List Str) (p : Str) → NoSlash p → split_loop parts [] p ≡ parts ++ p ∷ []
split_loop-last parts p n =
    ap (split_loop parts []) (sym (append-nil p))
    ∙ split_loop-part parts [] p [] n
    ∙ unfold split_loop in refl

split_loop-join :
    (parts : List Str) (p : Str) (ps : List Str)
    → NoSlash p
    → AllNoSlash ps
    → split_loop parts [] (join p ps) ≡ parts ++ p ∷ ps
split_loop-join parts p [] n ns = split_loop-last parts p n
split_loop-join parts p (q ∷ ps) n ns =
    split_loop-part parts [] p (b'/' ∷ join q ps) n
    ∙ split_loop-slash parts p b'/' (join q ps) refl
    ∙ split_loop-join (parts ++ p ∷ []) q ps ns.0 ns.1
    ∙ append_assoc parts (p ∷ []) (q ∷ ps)

NoSlash-append : (s : Str) (c : ℕ) → NoSlash s → (c == b'/') ≡ false → NoSlash (s ++ c ∷ [])
NoSlash-append [] c n h = (h, tt)
NoSlash-append (d ∷ s) c n h = (n.0, NoSlash-append s c n.1 h)

-- The parts that the loop adds, from what it still has to read.
record Splits (parts : List Str) (text : Str) (result : List Str) : Type 0 where
  first : Str
  others : List Str
  result_is : result ≡ parts ++ first ∷ others
  text_is : join first others ≡ text
  first_plain : NoSlash first
  others_plain : AllNoSlash others

split_loop-Splits :
    (parts : List Str) (current topic : Str)
    → NoSlash current
    → Splits parts (current ++ topic) (split_loop parts current topic)
split_loop-Splits parts current [] n = record {
  first = current;
  others = [];
  result_is = unfold split_loop in refl;
  text_is = sym (append-nil current);
  first_plain = n;
  others_plain = tt;
}
split_loop-Splits parts current (c ∷ topic) n = elim (Bool-cases (c == b'/')) [
  | inl slash ↦
      let s = split_loop-Splits (parts ++ current ∷ []) [] topic tt in
      record {
        first = current;
        others = s.first ∷ s.others;
        result_is =
            split_loop-slash parts current c topic slash
            ∙ s.result_is
            ∙ append_assoc parts (current ∷ []) (s.first ∷ s.others);
        text_is =
            ap (λ (t : Str). current ++ t)
              (ap (λ (t : Str). b'/' ∷ t) s.text_is
                ∙ ap (λ (d : ℕ). d ∷ topic) (sym ((==_iff c b'/').0 slash)));
        first_plain = n;
        others_plain = (s.first_plain, s.others_plain);
      }
  | inr plain ↦
      let s =
        split_loop-Splits parts (current ++ c ∷ []) topic (NoSlash-append current c n plain) in
      record {
        first = s.first;
        others = s.others;
        result_is = split_loop-plain parts current c topic plain ∙ s.result_is;
        text_is = s.text_is ∙ append_assoc current (c ∷ []) topic;
        first_plain = s.first_plain;
        others_plain = s.others_plain;
      }
]

-- splitTopic is exact: it is the one way to read a topic as parts without a slash that are joined
-- by slashes. The parts of a joined list are that list again.
pub split_topic-join :
    (p : Str) (ps : List Str) → NoSlash p → AllNoSlash ps → split_topic (join p ps) ≡ p ∷ ps
unfolding split_topic
split_topic-join p ps n ns = split_loop-join [] p ps n ns

-- Every topic, with no condition, is the join of the parts that splitTopic gives, and these are
-- without a slash.
pub join-split_topic :
    (topic : Str)
    → (p : Str) × (ps : List Str) × (split_topic topic ≡ p ∷ ps)
      × (join p ps ≡ topic)
      × NoSlash p
      × AllNoSlash ps
unfolding split_topic
join-split_topic topic =
    let s = split_loop-Splits [] [] topic tt in
    (s.first, s.others, s.result_is, s.text_is, s.first_plain, s.others_plain)
