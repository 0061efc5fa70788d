-- ===== src/Service/Normalized.antt =====
-- What `_normalize_routed_action` leaves alone.
use nova_adapt.Base.{
  String, false, ◌||◌, ◌≡◌, refl, ◌∙◌, arith, str_eq, Bool-cases, Option-cases, inl, inr,
}
use nova_adapt.Base.Json.{Fields, Value, str, obj, arr, num, bool, null, get, put, get-put}
use nova_adapt.Service.Routing.{
  Executors, word, normalize_routed_action, is_null, get_value, text_or_empty, with_point,
  with_keys, normal_click, normal_text, normal_hotkey,
}

-- An entry that the repairs of an action do not write.
abbrev IsKept : String → Type 0
IsKept k = (str_eq "target" k ≡ false) × (str_eq "value" k ≡ false)

module _ {W : Type 0} (ex : Executors W) (k : String) (kept : IsKept k) where
  get-put_target : (v : Value) (a : Fields) → get k (put "target" v a) ≡ get k a
  get-put_target v a = get-put "target" k v a ∙ rw kept.0 refl

  get-put_value : (v : Value) (a : Fields) → get k (put "value" v a) ≡ get k a
  get-put_value v a = get-put "value" k v a ∙ rw kept.1 refl

  get-with_point : (x y : Value) (a : Fields) → get k (with_point ex x y a) ≡ get k a
  unfolding with_point
  get-with_point x y a = elim (Bool-cases (is_null x || is_null y)) [
    | inl missing ↦ rw missing refl
    | inr there ↦ elim (Option-cases (ex.int_text x)) [
      | inl no_x ↦ rw there (rw no_x refl)
      | inr (xt, is_x) ↦ elim (Option-cases (ex.int_text y)) [
        | inl no_y ↦ rw there (rw is_x (rw no_y refl))
        | inr (yt, is_y) ↦ rw there (rw is_x (rw is_y (get-put_target _ a)))
      ]
    ]
  ]

  get-normal_click : (t : String) (a : Fields) → get k (normal_click ex t a) ≡ get k a
  unfolding normal_click
  get-normal_click t a = ground (arith, get-with_point (get_value "x" a) (get_value "y" a) a)

  get-normal_text : (t : String) (a : Fields) → get k (normal_text ex t a) ≡ get k a
  unfolding normal_text
  get-normal_text t a = ground (arith, get-put_value (str (text_or_empty ex.to_text "text" a)) a)

  get-with_keys : (v : Value) (a : Fields) → get k (with_keys ex v a) ≡ get k a
  unfolding with_keys
  get-with_keys (arr keys) a = get-put_target _ a
  get-with_keys (str s) a = refl
  get-with_keys (obj d) a = refl
  get-with_keys (num n) a = refl
  get-with_keys (bool b) a = refl
  get-with_keys null a = refl

  get-normal_hotkey : (t : String) (a : Fields) → get k (normal_hotkey ex t a) ≡ get k a
  unfolding normal_hotkey
  get-normal_hotkey t a = ground (arith, get-with_keys (get_value "keys" a) a)

  get-normalize : (a : Fields) → get k (normalize_routed_action ex a) ≡ get k a
  unfolding normalize_routed_action
  get-normalize a =
      let t = word ex.to_text "type" a in
      get-normal_hotkey t (normal_text ex t (normal_click ex t a))
      ∙ get-normal_text t (normal_click ex t a)
      ∙ get-normal_click t a

  -- So an action is routed by the same words before and after it is normalized.
  pub word-normalize :
      (a : Fields) → word ex.to_text k (normalize_routed_action ex a) ≡ word ex.to_text k a
  unfolding word
  word-normalize a = rw (get-normalize a) refl
