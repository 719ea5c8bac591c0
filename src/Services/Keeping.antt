-- ===== src/Services/Keeping.antt =====
-- What the steps of Services.ts leave of an instance that is known and that no node tells of.
use ataraxia.Base.{
  ℕ, ◌+◌, ◌≤◌, ◌<◌, ◌≡◌, refl, sym, ap, ◌∙◌, none, some, true, false, List, [], ◌∷◌, ◌==◌, arith,
  Bool-cases, Option-cases, inl, inr, Text, bytes_eq, nat_eq,
}
use ataraxia.Map
use ataraxia.Map.{Map}
use ataraxia.Services.Defs.{
  ServiceDef, Reflect, add_reflect, remove_reflect, has_reflects, NodeData, Services,
}
use ataraxia.Services.Handlers.{
  register_service_reflect, update_service_reflect, unregister_service_reflect, unregister_all,
  take_defs, drop_unlisted, is_listed, follow_version,
}
use ataraxia.Services.Held.{
  has_number, is_held, is_told, add-number, remove-number, number-has_reflects, set-number,
  delete-number, get-number, set-told,
}

-- An instance that stays with its service when one state turns into the other; the nodes are those
-- before, and numbers are only taken.
pub record Keeps (n : ℕ) (id : Text) (s t : Services) : Type 0 where
  pub held : is_held n id s.known ≡ true → is_held n id t.known ≡ true
  pub nodes : t.nodes ≡ s.nodes
  pub next : s.next ≤ t.next

-- The instance is among those of the service, has a number that was taken, and no node tells of it.
pub record Stays (n : ℕ) (id : Text) (s : Services) : Type 0 where
  pub held : is_held n id s.known ≡ true
  pub taken : n < s.next
  pub untold : is_told n s.nodes ≡ false

module _ (n : ℕ) (id : Text) where
  pub same-Keeps : (s : Services) → Keeps n id s s
  same-Keeps s = record { held = λ h. h; nodes = refl; next = omega arith }

  pub then-Keeps : (s t u : Services) → Keeps n id s t → Keeps n id t u → Keeps n id s u
  then-Keeps s t u k l = record {
    held = λ h. l.held (k.held h);
    nodes = l.nodes ∙ k.nodes;
    next = omega (arith, k.next, l.next);
  }

  pub Keeps-Stays : (s t : Services) → Keeps n id s t → Stays n id s → Stays n id t
  Keeps-Stays s t k w = record {
    held = k.held w.held;
    taken = omega (arith, w.taken, k.next);
    untold = ap (is_told n) k.nodes ∙ w.untold;
  }

  set-held :
      (key : Text) (old new : List Reflect) (known : Map Text (List Reflect))
      → Map.get key known ≡ some old
      → (has_number n old ≡ true → has_number n new ≡ true)
      → is_held n id known ≡ true
      → is_held n id (Map.set key new known) ≡ true
  set-held key old new known q k h = elim (Bool-cases (bytes_eq.beq key id)) [
    | inr d ↦ ground (arith, Map.get-set key id new known, d, h)
    | inl d ↦
        let there : Map.get id known ≡ some old =
          ap (λ (x : Text). Map.get x known) (sym ((bytes_eq.beq_iff key id).0 d)) ∙ q in
        let had : has_number n old ≡ true = rw (there, is_held) at h in
        ground (arith, Map.get-set key id new known, d, k had)
  ]

  pub register-Keeps : (r : Reflect) (s : Services) → Keeps n id s (register_service_reflect r s).0
  unfolding register_service_reflect
  register-Keeps r s = elim (Option-cases (Map.get r.def.id s.known)) [
    | inl q ↦
        rw (q, register_service_reflect)
          (record {
            held = λ h. elim (Bool-cases (bytes_eq.beq r.def.id id)) [
              | inr d ↦ ground (arith, Map.get-set r.def.id id (add_reflect r []) s.known, d, h)
              | inl d ↦
                  let gone : Map.get id s.known ≡ none =
                    ap (λ (x : Text). Map.get x s.known) (sym ((bytes_eq.beq_iff r.def.id id).0 d))
                    ∙ q in
                  absurd (let c : false ≡ true = rw (gone, is_held) at h in cc)
            ];
            nodes = refl;
            next = omega arith;
          })
    | inr (reflects, q) ↦
        rw (q, register_service_reflect)
          (record {
            held =
                set-held r.def.id reflects (add_reflect r reflects) s.known q
                  (λ k. ground (arith, add-number n r reflects, k));
            nodes = refl;
            next = omega arith;
          })
  ]

  pub update-Keeps :
      (current new : Reflect) (s : Services)
      → current.number == n ≡ false
      → Keeps n id s (update_service_reflect current new s).0
  unfolding update_service_reflect
  update-Keeps current new s d = elim (Option-cases (Map.get current.def.id s.known)) [
    | inl q ↦ rw (q, update_service_reflect) (same-Keeps s)
    | inr (reflects, q) ↦
        let rest = remove_reflect current reflects in
        rw (q, update_service_reflect)
          (record {
            held =
                set-held current.def.id reflects (add_reflect new rest) s.known q (λ k.
                  ground (arith, add-number n new rest, remove-number n current reflects d, k));
            nodes = refl;
            next = omega arith;
          })
  ]

  pub unregister-Keeps :
      (r : Reflect) (s : Services)
      → r.number == n ≡ false
      → Keeps n id s (unregister_service_reflect r s).0
  unfolding unregister_service_reflect
  unregister-Keeps r s d = elim (Option-cases (Map.get r.def.id s.known)) [
    | inl q ↦ rw (q, unregister_service_reflect) (same-Keeps s)
    | inr (reflects, q) ↦
        let rest = remove_reflect r reflects in
        let same = remove-number n r reflects d in
        elim (Bool-cases (has_reflects rest)) [
          | inl l ↦
              rw (q, l, unregister_service_reflect)
                (record {
                  held = set-held r.def.id reflects rest s.known q (λ k. same ∙ k);
                  nodes = refl;
                  next = omega arith;
                })
          | inr l ↦
              rw (q, l, unregister_service_reflect)
                (record {
                  held = λ h. elim (Bool-cases (bytes_eq.beq r.def.id id)) [
                    | inr e ↦ ground (arith, Map.get-delete r.def.id id s.known, e, h)
                    | inl e ↦
                        let there : Map.get id s.known ≡ some reflects =
                          ap (λ (x : Text). Map.get x s.known)
                            (sym ((bytes_eq.beq_iff r.def.id id).0 e))
                          ∙ q in
                        let had : has_number n reflects ≡ true = rw (there, is_held) at h in
                        let left = number-has_reflects n rest (same ∙ had) in
                        absurd (let c : false ≡ true = sym l ∙ left in cc)
                  ];
                  nodes = refl;
                  next = omega arith;
                })
        ]
  ]

  pub unregister_all-Keeps :
      (reflects : List Reflect) (s : Services)
      → has_number n reflects ≡ false
      → Keeps n id s (unregister_all reflects s).0
  unfolding unregister_all
  unregister_all-Keeps [] s d = same-Keeps s
  unregister_all-Keeps (r ∷ reflects) s d =
      let t = (unregister_service_reflect r s).0 in
      then-Keeps s t (unregister_all reflects t).0 (unregister-Keeps r s (ground (arith, d)))
        (unregister_all-Keeps reflects t (ground (arith, d)))

  -- The services of a node after the first loop of a list do not have the instance either.
  pub take_defs-Keeps :
      (defs : List ServiceDef) (services : Map Text Reflect) (s : Services)
      → n < s.next
      → has_number n (Map.values services) ≡ false
      → Keeps n id s (take_defs defs services s).1
        × (has_number n (Map.values (take_defs defs services s).0) ≡ false)
  unfolding take_defs
  take_defs-Keeps [] services s l d = (same-Keeps s, d)
  take_defs-Keeps (def ∷ defs) services s l d =
      let r : Reflect = record { number = s.next; def = def } in
      let t = record s { next = s.next + 1 } in
      let first : Keeps n id s t = record { held = λ h. h; nodes = refl; next = omega arith } in
      let more = Map.set def.id r services in
      let other = set-number n def.id r services d (ground (arith, l)) in
      elim (Option-cases (Map.get def.id services)) [
        | inl q ↦
            let u = (register_service_reflect r t).0 in
            let k = then-Keeps s t u first (register-Keeps r t) in
            let (rest, kept) = take_defs-Keeps defs more u (omega (arith, l, k.next)) other in
            rw q (then-Keeps s u (take_defs defs more u).1 k rest, kept)
        | inr (old, q) ↦
            let u = (update_service_reflect old r t).0 in
            let k =
              then-Keeps s t u first
                (update-Keeps old r t (get-number n def.id old services q d)) in
            let (rest, kept) = take_defs-Keeps defs more u (omega (arith, l, k.next)) other in
            rw q (then-Keeps s u (take_defs defs more u).1 k rest, kept)
      ]

  pub drop_unlisted-Keeps :
      (ids : List Text) (defs : List ServiceDef) (services : Map Text Reflect) (s : Services)
      → has_number n (Map.values services) ≡ false
      → Keeps n id s (drop_unlisted ids defs services s).1
        × (has_number n (Map.values (drop_unlisted ids defs services s).0) ≡ false)
  unfolding drop_unlisted
  drop_unlisted-Keeps [] defs services s d = (same-Keeps s, d)
  drop_unlisted-Keeps (key ∷ ids) defs services s d = elim (Bool-cases (is_listed key defs)) [
    | inl l ↦ rw (l, drop_unlisted) (drop_unlisted-Keeps ids defs services s d)
    | inr l ↦ elim (Option-cases (Map.get key services)) [
      | inl q ↦ rw (l, q, drop_unlisted) (drop_unlisted-Keeps ids defs services s d)
      | inr (r, q) ↦
          let t = (unregister_service_reflect r s).0 in
          let fewer = Map.delete key services in
          let (rest, kept) =
            drop_unlisted-Keeps ids defs fewer t (delete-number n key services d) in
          let first = unregister-Keeps r s (get-number n key r services q d) in
          rw (l, q, drop_unlisted)
            (then-Keeps s t (drop_unlisted ids defs fewer t).1 first rest, kept)
    ]
  ]

  pub follow_version-Stays :
      (node : Text) (version : ℕ) (d : NodeData) (s : Services)
      → has_number n (Map.values d.services) ≡ false
      → Stays n id s
      → Stays n id (follow_version node version d s).0
  unfolding follow_version
  follow_version-Stays node version d s h w =
      elim (Bool-cases (nat_eq.beq (d.version + 1) version)) [
        | inl q ↦ rw q (record {
          held = w.held;
          taken = w.taken;
          untold = set-told n node (record d { version = version }) s.nodes w.untold h;
        })
        | inr q ↦ rw q (record {
          held = w.held;
          taken = w.taken;
          untold = set-told n node d s.nodes w.untold h;
        })
      ]
