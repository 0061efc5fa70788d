-- ===== src/Plans/Policy/Gate.antt =====
-- What the policy blocks.
use nova_adapt.Base.{
  String, Bool, true, not, ◌&&◌, ◌||◌, ◌≡◌, refl, ◌∙◌, List, [], ◌∷◌, map, str_eq, eq_iff, any,
  arith, inl, inr, Bool-cases,
}
use Prim.Native.String
use nova_adapt.Base.Find.{occurs_in, join, occurs_in-append, occurs_in-behind, occurs_in-blank}
use nova_adapt.Base.Json.{Value, Fields}
use nova_adapt.Plans.Policy.{
  decide, is_member, mentions, watched, entry, haystack, is_dangerous, evaluate, dangerous_types,
  dangerous_keywords, physical_actuation_keywords, mobile_financial_keywords,
}

-- A keyword in one of the parts is in the text that joins them.
occurs_in-join :
    (w : String) (parts : List String)
    → any (occurs_in w) parts ≡ true
    → occurs_in w (join parts) ≡ true
unfolding join
occurs_in-join w [] h = absurd (ground arith)
occurs_in-join w (part ∷ parts) h =
    let rest = join parts in
    let both = String.◌++◌ part (String.◌++◌ " " rest) in
    ground (
      arith,
      occurs_in-join w parts,
      occurs_in-append w part (String.◌++◌ " " rest),
      occurs_in-behind w part (String.◌++◌ " " rest),
      occurs_in-behind w " " rest,
      occurs_in-blank w part rest,
      occurs_in-blank w rest part,
    )

any-map :
    (p : String → Bool) (f : String → String) (xs : List String)
    → any p (map f xs) ≡ any (λ x. p (f x)) xs
any-map p f [] = refl
any-map p f (x ∷ xs) = ground (arith, any-map p f xs)

mentions-of :
    (keywords : List String) (w text : String)
    → is_member w keywords ≡ true
    → occurs_in w text ≡ true
    → mentions keywords text ≡ true
mentions-of [] w text h k = absurd (ground arith)
mentions-of (x ∷ keywords) w text h k = elim (Bool-cases (str_eq x w)) [
  | inl same ↦ let hit : occurs_in x text ≡ true = rw ((eq_iff x w).0 same) k in ground arith
  | inr other ↦ ground (arith, mentions-of keywords w text)
]

-- One of the tests of `is_dangerous` is enough.
combine :
    (t d p f h a wd wa wf : Bool)
    → (wd ≡ true → d ≡ true)
    → (wa ≡ true → a ≡ true)
    → (wf ≡ true → f ≡ true)
    → (wd || wa || (p && wf)) ≡ true
    → ((t || d) || (p && f) || h || a) ≡ true
combine t d p f h a wd wa wf hd ha hf some_word = ground arith

first_test : (t d p f h a : Bool) → t ≡ true → ((t || d) || (p && f) || h || a) ≡ true
first_test t d p f h a is_true = ground arith

decided : (d allow : Bool) → (decide d allow).allowed ≡ (not d || allow)
decided d allow = ground arith

flagged : (d allow : Bool) → (decide d allow).dangerous ≡ d
flagged d allow = ground arith

module _ (to_text : Value → String) (action : Fields) where
  -- Whether an entry that is watched contains the word.
  abbrev pub has_word : String → Bool
  has_word w = any (λ k. occurs_in w (entry to_text action k)) watched

  -- An action of a dangerous type is dangerous, whatever else it holds.
  pub dangerous_type :
      is_member (entry to_text action "type") dangerous_types ≡ true
      → is_dangerous to_text action ≡ true
  unfolding is_dangerous
  dangerous_type h =
      first_test (is_member (entry to_text action "type") dangerous_types)
        (mentions dangerous_keywords (haystack to_text action))
        (is_member (entry to_text action "platform") ("android" ∷ "ios" ∷ []))
        (mentions mobile_financial_keywords (haystack to_text action))
        (is_member (entry to_text action "type") ("ha_service" ∷ "mqtt_publish" ∷ []))
        (mentions physical_actuation_keywords (haystack to_text action)) h

  -- An action is dangerous if one of the watched entries contains a dangerous keyword or the name of a
  -- physical device, or, where the platform is Android or iOS, a financial keyword: the text of an
  -- entry counts stripped and in small letters.
  pub dangerous_word :
      (w : String)
      → has_word w ≡ true
      → (is_member w dangerous_keywords
          || is_member w physical_actuation_keywords
          || (is_member (entry to_text action "platform") ("android" ∷ "ios" ∷ [])
              && is_member w mobile_financial_keywords))
        ≡ true
      → is_dangerous to_text action ≡ true
  unfolding is_dangerous
  dangerous_word w has listed =
      let text = haystack to_text action in
      let there : occurs_in w text ≡ true =
        occurs_in-join w (map (entry to_text action) watched)
          (any-map (occurs_in w) (entry to_text action) watched ∙ has) in
      combine (is_member (entry to_text action "type") dangerous_types)
        (mentions dangerous_keywords text)
        (is_member (entry to_text action "platform") ("android" ∷ "ios" ∷ []))
        (mentions mobile_financial_keywords text)
        (is_member (entry to_text action "type") ("ha_service" ∷ "mqtt_publish" ∷ []))
        (mentions physical_actuation_keywords text) (is_member w dangerous_keywords)
        (is_member w physical_actuation_keywords) (is_member w mobile_financial_keywords)
        (λ h. mentions-of dangerous_keywords w text h there)
        (λ h. mentions-of physical_actuation_keywords w text h there)
        (λ h. mentions-of mobile_financial_keywords w text h there) listed

  -- An action is let through unless it is dangerous and dangerous actions are not allowed; to allow them
  -- does not change whether the action is reported as dangerous.
  pub policy_gate :
      (allow : Bool)
      → ((evaluate to_text action allow).allowed ≡ (not (is_dangerous to_text action) || allow))
        × ((evaluate to_text action allow).dangerous ≡ is_dangerous to_text action)
  unfolding evaluate
  policy_gate allow =
      (decided (is_dangerous to_text action) allow, flagged (is_dangerous to_text action) allow)
