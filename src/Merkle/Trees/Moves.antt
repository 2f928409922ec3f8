-- ===== src/Merkle/Trees/Moves.antt =====
-- The loop of `prepare_commit_tree` on fields that have been moved.
use mathlib.Core.List.Permᴰ
use mathlib.Core.List.{Permᴰ}
use zentral.Base.{
  Bool-cases, String, ap, false, inl, inr, refl, subst, sym, true, ◌==◌, ◌∙◌, ◌≡◌, nat_eq,
  string_eq, option_eq, bool_eq,
}
use zentral.Merkle.Results.{Result, ok, ◌>>=◌, ok-injective, steps_of, ok_bind}
use zentral.Merkle.Hasher.{Value, Fields, add_field, keys}
use zentral.Merkle.Hasher.Order.{view, distinct}
use zentral.Merkle.Hasher.Adding.{SameValue, same}
use zentral.Merkle.Hasher.Exchange.{add_field-SameValue, add_field-swap, add_field-distinct}
use zentral.Merkle.Trees.{Tree, Items, is_empty_tree, prepare_items, prepare_value}

module _ (sha1 : String → String) (make_naive : String → String) where
  -- the other value is prepared as well, and is the same to the hasher
  unfoldable pub ReachesValue : Tree → Tree × Value → Type 0
  ReachesValue w p =
      (r : Tree × Value) × ((prepare_value sha1 make_naive w ≡ ok r) × SameValue p.1 r.1)

  -- the other fields are prepared as well, and leave a hasher with the same view
  unfoldable pub ReachesItems : Items → Fields → Items × Fields → Type 0
  ReachesItems gs ks q =
      (r : Items × Fields) × ((prepare_items sha1 make_naive gs ks ≡ ok r)
        × (Permᴰ (view q.1) (view r.1) × (distinct (keys q.1) ≡ true)))

  abbrev pub MovesValue : Tree → Tree → Type 0
  MovesValue v w = (p : Tree × Value) → prepare_value sha1 make_naive v ≡ ok p → ReachesValue w p

  abbrev pub Moves : Items → Items → Type 0
  Moves fs gs =
      (hs ks : Fields) (q : Items × Fields)
      → Permᴰ (view hs) (view ks)
      → distinct (keys hs) ≡ true
      → prepare_items sha1 make_naive fs hs ≡ ok q
      → ReachesItems gs ks q

  -- the loop on one field that is not empty
  step : String → Tree → Items → Fields → Result (Items × Fields)
  step k v rest hs = prepare_value sha1 make_naive v >>= λ p.
      add_field make_naive k p.1 hs >>= λ added.
      prepare_items sha1 make_naive rest added >>= λ q. ok (Items.item k p.0 q.0, q.1)

  items-skipped :
      (k : String) (v : Tree) (rest : Items) (hs : Fields)
      → is_empty_tree v ≡ true
      → prepare_items sha1 make_naive (Items.item k v rest) hs
        ≡ prepare_items sha1 make_naive rest hs
  unfolding prepare_items
  items-skipped k v rest hs e = rw (e) refl

  items-kept :
      (k : String) (v : Tree) (rest : Items) (hs : Fields)
      → is_empty_tree v ≡ false
      → prepare_items sha1 make_naive (Items.item k v rest) hs ≡ step k v rest hs
  unfolding prepare_items step
  items-kept k v rest hs e = rw (e) refl

  -- what a step that returns has gone through
  record Taken (k : String) (v : Tree) (rest : Items) (hs : Fields) (q : Items × Fields)
      : Type 0 where
    p : Tree × Value
    added : Fields
    s : Items × Fields
    value : prepare_value sha1 make_naive v ≡ ok p
    adds : add_field make_naive k p.1 hs ≡ ok added
    others : prepare_items sha1 make_naive rest added ≡ ok s
    ends : s.1 ≡ q.1

  step-Taken :
      (k : String) (v : Tree) (rest : Items) (hs : Fields) (q : Items × Fields)
      → step k v rest hs ≡ ok q
      → Taken k v rest hs q
  unfolding step
  step-Taken k v rest hs q h =
      let a = steps_of (prepare_value sha1 make_naive v) _ q h in
      let b = steps_of (add_field make_naive k a.0.1 hs) _ q a.1.1 in
      let c = steps_of (prepare_items sha1 make_naive rest b.0) _ q b.1.1 in
      record {
        p = a.0;
        added = b.0;
        s = c.0;
        value = a.1.0;
        adds = b.1.0;
        others = c.1.0;
        ends = ap (λ r. r.1) (ok-injective c.1.1);
      }

  step-of :
      (k : String) (v : Tree) (rest : Items) (hs added : Fields) (p : Tree × Value)
      (s : Items × Fields)
      → prepare_value sha1 make_naive v ≡ ok p
      → add_field make_naive k p.1 hs ≡ ok added
      → prepare_items sha1 make_naive rest added ≡ ok s
      → step k v rest hs ≡ ok (Items.item k p.0 s.0, s.1)
  unfolding step
  step-of k v rest hs added p s e f g = ok_bind _ e (ok_bind _ f (ok_bind _ g refl))

  pub Moves-item :
      (k : String) (v w : Tree) (fs gs : Items)
      → MovesValue v w
      → is_empty_tree v ≡ is_empty_tree w
      → Moves fs gs
      → Moves (Items.item k v fs) (Items.item k w gs)
  unfolding ReachesItems ReachesValue
  Moves-item k v w fs gs value same_empty rest hs ks q p u h = elim (Bool-cases (is_empty_tree v)) [
    | inl e ↦
        let r = rest hs ks q p u (sym (items-skipped k v fs hs e) ∙ h) in
        (r.0, (items-skipped k w gs ks (sym same_empty ∙ e) ∙ r.1.0, r.1.1))
    | inr e ↦
        let t = step-Taken k v fs hs q (sym (items-kept k v fs hs e) ∙ h) in
        let x = value t.p t.value in
        let a = add_field-SameValue make_naive k t.p.1 x.0.1 hs ks t.added x.1.1 p t.adds in
        let r =
          rest t.added a.0 t.s a.1.1 (add_field-distinct make_naive k t.p.1 hs t.added u t.adds)
            t.others in
        (
          (Items.item k x.0.0 r.0.0, r.0.1),
          (
            items-kept k w gs ks (sym same_empty ∙ e)
                ∙ step-of k w gs ks a.0 x.0 r.0 x.1.0 a.1.0 r.1.0,
            subst (λ l. Permᴰ (view l) (view r.0.1) × (distinct (keys l) ≡ true)) t.ends r.1.1,
          ),
        )
  ]

  end-items : (hs : Fields) → prepare_items sha1 make_naive Items.end hs ≡ ok (Items.end, hs)
  unfolding prepare_items
  end-items hs = refl

  pub Moves-self : (fs : Items) → Moves fs fs
  unfolding ReachesItems ReachesValue
  Moves-self Items.end = λ hs ks q p u h. (
    (Items.end, ks),
    (
      end-items ks,
      subst (λ r. Permᴰ (view r.1) (view ks) × (distinct (keys r.1) ≡ true))
          (ok-injective (sym (end-items hs) ∙ h)) (p, u),
    ),
  )
  Moves-self (Items.item k v rest) =
      Moves-item k v v rest rest (λ p e. (p, (e, same refl))) refl (Moves-self rest)

  Moves-skip_left :
      (k : String) (v : Tree) (fs gs : Items)
      → is_empty_tree v ≡ true
      → Moves fs gs
      → Moves (Items.item k v fs) gs
  Moves-skip_left k v fs gs e d hs ks q p u h = d hs ks q p u (sym (items-skipped k v fs hs e) ∙ h)

  Moves-skip_right :
      (k : String) (v : Tree) (fs gs : Items)
      → is_empty_tree v ≡ true
      → Moves fs gs
      → Moves fs (Items.item k v gs)
  unfolding ReachesItems
  Moves-skip_right k v fs gs e d hs ks q p u h =
      let r = d hs ks q p u h in (r.0, (items-skipped k v gs ks e ∙ r.1.0, r.1.1))

  unmoved : (v : Tree) → MovesValue v v
  unfolding ReachesValue
  unmoved v p e = (p, (e, same refl))

  Moves-both :
      (k j : String) (v w : Tree) (fs : Items)
      → (k == j) ≡ false
      → is_empty_tree v ≡ false
      → is_empty_tree w ≡ false
      → Moves (Items.item k v (Items.item j w fs)) (Items.item j w (Items.item k v fs))
  unfolding ReachesItems
  Moves-both k j v w fs differ kept_v kept_w hs ks q p u h =
      let t =
        step-Taken k v (Items.item j w fs) hs q
          (sym (items-kept k v (Items.item j w fs) hs kept_v) ∙ h) in
      let n = step-Taken j w fs t.added t.s (sym (items-kept j w fs t.added kept_w) ∙ t.others) in
      let x =
        add_field-swap make_naive k j t.p.1 n.p.1 hs ks t.added n.added differ p t.adds n.adds in
      let last = x.1.1.0 in
      let u =
        add_field-distinct make_naive j n.p.1 t.added n.added
          (add_field-distinct make_naive k t.p.1 hs t.added u t.adds) n.adds in
      let r = Moves-self fs n.added last n.s x.1.1.1.1 u n.others in
      (
        (Items.item j n.p.0 (Items.item k t.p.0 r.0.0), r.0.1),
        (
          items-kept j w (Items.item k v fs) ks kept_w
              ∙ step-of j w (Items.item k v fs) ks x.0 n.p (Items.item k t.p.0 r.0.0, r.0.1) n.value
                  x.1.0
                  (items-kept k v fs x.0 kept_v
                    ∙ step-of k v fs x.0 last t.p r.0 t.value x.1.1.1.0 r.1.0),
          subst (λ l. Permᴰ (view l) (view r.0.1) × (distinct (keys l) ≡ true)) (n.ends ∙ t.ends)
              r.1.1,
        ),
      )

  pub Moves-swap :
      (k j : String) (v w : Tree) (fs : Items)
      → (k == j) ≡ false
      → Moves (Items.item k v (Items.item j w fs)) (Items.item j w (Items.item k v fs))
  Moves-swap k j v w fs differ = elim (Bool-cases (is_empty_tree v)) [
    | inl e ↦ Moves-skip_left k v (Items.item j w fs) (Items.item j w (Items.item k v fs)) e (
        Moves-item j w w fs (Items.item k v fs) (unmoved w) refl
          (Moves-skip_right k v fs fs e (Moves-self fs)))
    | inr e ↦ elim (Bool-cases (is_empty_tree w)) [
      | inl f ↦ Moves-skip_right j w (Items.item k v (Items.item j w fs)) (Items.item k v fs) f (
          Moves-item k v v (Items.item j w fs) fs (unmoved v) refl
            (Moves-skip_left j w fs fs f (Moves-self fs)))
      | inr f ↦ Moves-both k j v w fs differ e f
    ]
  ]

  pub Moves-trans : (fs gs ls : Items) → Moves fs gs → Moves gs ls → Moves fs ls
  unfolding ReachesItems
  Moves-trans fs gs ls d e hs ks q p u h =
      let a = d hs hs q (Permᴰ.refl (view hs)) u h in
      let b = e hs ks a.0 p u a.1.0 in (b.0, (b.1.0, (Permᴰ.trans a.1.1.0 b.1.1.0, a.1.1.1)))
