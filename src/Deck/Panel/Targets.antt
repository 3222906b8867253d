-- ===== src/Deck/Panel/Targets.antt =====
-- What the pickers offer.
use mathlib.Core.List.Memᴰ.{cases_cons}
use mooring_line_management.Base.{
  Option, none, false, Bool-cases, str_eq, All, ◌≡◌, ◌≢◌, ◌↔◌, ◌⊎◌, inl, inr, refl, sym, ap, ◌∙◌,
  subst, String, Bool, true, false, ◌&&◌, some, List, [], ◌∷◌, ◌++◌, map, any, truthy, eq_refl,
  eq_iff, arith, Memᴰ, All-mem, mem-filter_iff, mem-sort_by_iff,
}
use mooring_line_management.Schema.{Drum, Winch, Storage, Layout, LineRow}
use mooring_line_management.Deck.Panel.{
  drum_label, is_set, is_text, is_assignable, by_idx, drum_le, Target, drum, storage, is_occupied,
  is_free_for, drum_target, winch_targets, drum_targets, storage_target, storage_targets,
  move_targets, assign_candidates,
}

mem-map_iff {ℓ κ} :
    {A : Type ℓ} {B : Type κ} (f : A → B) (b : B) (xs : List A)
    → Memᴰ b (map f xs) ↔ ((a : A) × Memᴰ a xs × (b ≡ f a))
mem-map_iff f b [] = (λ m. elim m [ ], λ h. elim h.1 [ ])
mem-map_iff {A} f b (x ∷ xs) = (
  λ m. elim (cases_cons m) [
    | inl h ↦ (x, Memᴰ.head refl, h)
    | inr t ↦ let (a, n, e) = (mem-map_iff f b xs).0 t in (a, Memᴰ.tail n, e)
  ],
  λ h. elim (cases_cons h.1) [
    | inl e ↦ Memᴰ.head (h.2 ∙ ap f e)
    | inr n ↦ Memᴰ.tail ((mem-map_iff f b xs).1 (h.0, n, h.2))
  ],
)

mem-append_iff {ℓ} :
    {A : Type ℓ} (a : A) (xs ys : List A) → Memᴰ a (xs ++ ys) ↔ (Memᴰ a xs ⊎ Memᴰ a ys)
mem-append_iff a [] ys = (λ m. inr m, λ h. elim h [ inl m ↦ elim m [ ] | inr m ↦ m ])
mem-append_iff a (x ∷ xs) ys = (
  λ m. elim (cases_cons m) [
    | inl h ↦ inl (Memᴰ.head h)
    | inr t ↦ elim ((mem-append_iff a xs ys).0 t) [ inl n ↦ inl (Memᴰ.tail n) | inr n ↦ inr n ]
  ],
  λ h. elim h [
    | inl m ↦ elim (cases_cons m) [
      | inl e ↦ Memᴰ.head e
      | inr t ↦ Memᴰ.tail ((mem-append_iff a xs ys).1 (inl t))
    ]
    | inr m ↦ Memᴰ.tail ((mem-append_iff a xs ys).1 (inr m))
  ],
)

module _ {N : Type 0} where
  -- A drum of one of the winches that the line can go to.
  abbrev pub FreeDrum : Target → LineRow → List LineRow → List (Winch N) → Type 0
  FreeDrum t l lines ws =
      (w : Winch N) × (d : Drum) × Memᴰ w ws
      × Memᴰ d w.drums
      × (is_free_for l lines d ≡ true)
      × (t ≡ drum_target w d)

  abbrev pub OtherStore : Target → LineRow → List (Storage N) → Type 0
  OtherStore t l ss =
      (s : Storage N) × Memᴰ s ss
      × (is_text l.current_storage_id s.id ≡ false)
      × (t ≡ storage_target s)

  winch_targets_iff :
      (t : Target) (l : LineRow) (lines : List LineRow) (w : Winch N)
      → Memᴰ t (winch_targets l lines w)
        ↔ ((d : Drum) × Memᴰ d w.drums × (is_free_for l lines d ≡ true) × (t ≡ drum_target w d))
  unfolding winch_targets
  winch_targets_iff t l lines w = (
    λ m.
        let (d, n, e) = (mem-map_iff (drum_target w) t _).0 m in
        let (k, f) = (mem-filter_iff (is_free_for l lines) d (by_idx w.drums)).0 n in
        (d, (mem-sort_by_iff drum_le d w.drums).0 k, f, e),
    λ h.
        let (d, n, f, e) = h in
        (mem-map_iff (drum_target w) t _).1 (
          d,
          (mem-filter_iff (is_free_for l lines) d (by_idx w.drums)).1
              ((mem-sort_by_iff drum_le d w.drums).1 n, f),
          e,
        ),
  )

  drum_targets_iff :
      (t : Target) (l : LineRow) (lines : List LineRow) (ws : List (Winch N))
      → Memᴰ t (drum_targets l lines ws) ↔ FreeDrum t l lines ws
  unfolding drum_targets
  drum_targets_iff t l lines [] = (λ m. elim m [ ], λ h. elim h.2 [ ])
  drum_targets_iff t l lines (w ∷ ws) = (
    λ m. elim ((mem-append_iff t (winch_targets l lines w) _).0 m) [
      | inl n ↦
          let (d, k, f, e) = (winch_targets_iff t l lines w).0 n in (w, d, Memᴰ.head refl, k, f, e)
      | inr n ↦
          let (v, d, k, a, f, e) = (drum_targets_iff t l lines ws).0 n in
          (v, d, Memᴰ.tail k, a, f, e)
    ],
    λ h.
        let (v, d, k, n, f, e) = h in
        (mem-append_iff t (winch_targets l lines w) _).1 (elim (cases_cons k) [
          | inl q ↦ inl (
              (winch_targets_iff t l lines w).1 (
                subst
                  (λ u.
                    (d : Drum) × Memᴰ d u.drums
                    × (is_free_for l lines d ≡ true)
                    × (t ≡ drum_target u d))
                  q (d, n, f, e)))
          | inr q ↦ inr ((drum_targets_iff t l lines ws).1 (v, d, q, n, f, e))
        ]),
  )

  storage_targets_iff :
      (t : Target) (l : LineRow) (ss : List (Storage N))
      → Memᴰ t (storage_targets l ss) ↔ OtherStore t l ss
  unfolding storage_targets
  storage_targets_iff t l ss = (
    λ m.
        let (s, n, e) = (mem-map_iff storage_target t _).0 m in
        let (k, f) = (mem-filter_iff _ s ss).0 n in (s, k, ground (arith, f), e),
    λ h.
        let (s, n, f, e) = h in
        (mem-map_iff storage_target t _).1 (s, (mem-filter_iff _ s ss).1 (n, ground (arith, f)), e),
  )

  pub offered_iff :
      (t : Target) (l : LineRow) (lines : List LineRow) (layout : Layout N)
      → Memᴰ t (move_targets l lines layout)
        ↔ (FreeDrum t l lines layout.winches ⊎ OtherStore t l layout.storage)
  unfolding move_targets
  offered_iff t l lines layout = (
    λ m. elim ((mem-append_iff t (drum_targets l lines layout.winches) _).0 m) [
      | inl n ↦ inl ((drum_targets_iff t l lines layout.winches).0 n)
      | inr n ↦ inr ((storage_targets_iff t l layout.storage).0 n)
    ],
    λ h. (mem-append_iff t (drum_targets l lines layout.winches) _).1 (elim h [
      | inl n ↦ inl ((drum_targets_iff t l lines layout.winches).1 n)
      | inr n ↦ inr ((storage_targets_iff t l layout.storage).1 n)
    ]),
  )

-- Whether an optional text is a given one.
pub is_text_iff : (o : Option String) (id : String) → (is_text o id ≡ false) ↔ (o ≢ some id)
is_text_iff none id = (λ h e. cc, λ h. refl)
is_text_iff (some s) id = (
  λ h e. absurd (false-ne-true (sym h ∙ (eq_iff s id).1 (some_injective e))),
  λ h. elim (Bool-cases (str_eq s id)) [
    | inl e ↦ absurd (h (ap some ((eq_iff s id).0 e)))
    | inr e ↦ e
  ],
)
  where
    false-ne-true : false ≢ true
    false-ne-true e = cc

    some_injective : {u v : String} → some u ≡ some v → u ≡ v
    some_injective e = cc

is_held_iff :
    (o : Option String) (id : String)
    → truthy id ≡ true
    → ((is_set o && is_text o id) ≡ false) ↔ (o ≢ some id)
is_held_iff o id k = (
  λ h e. absurd (
      true-ne-false (
        sym (subst (λ p. (is_set p && is_text p id) ≡ true) (sym e) (rw (k, eq_refl id) refl))
        ∙ h)),
  λ h. let n = (is_text_iff o id).1 h in ground (arith, n),
)
  where
    true-ne-false : true ≢ false
    true-ne-false e = cc

pub is_occupied_iff :
    (lines : List LineRow) (id : String)
    → truthy id ≡ true
    → (is_occupied lines id ≡ false) ↔ All (λ m. m.current_drum_id ≢ some id) lines
unfolding is_occupied
is_occupied_iff [] id k = (λ h. tt, λ h. refl)
is_occupied_iff (l ∷ lines) id k =
    let (f, g) = is_held_iff l.current_drum_id id k in
    let (fs, gs) = is_occupied_iff lines id k in
    (
      λ h. (f (ground (arith, h)), fs (ground (arith, h))),
      λ h. let a = g h.0 in let b = gs h.1 in ground (arith, a, b),
    )

any_of_mem {ℓ} :
    {A : Type ℓ} (p : A → Bool) (x : A) (xs : List A) → Memᴰ x xs → p x ≡ true → any p xs ≡ true
any_of_mem p x [] m e = elim m [ ]
any_of_mem p x (y ∷ ys) m e = elim (cases_cons m) [
  | inl q ↦ rw (sym (ap p q) ∙ e) refl
  | inr t ↦ ground (arith, any_of_mem p x ys t e)
]

is_occupied_of_mem :
    (lines : List LineRow) (m : LineRow) (id : String)
    → Memᴰ m lines
    → truthy id ≡ true
    → m.current_drum_id ≡ some id
    → is_occupied lines id ≡ true
unfolding is_occupied
is_occupied_of_mem lines m id k h e =
    any_of_mem _ m lines k
      (subst (λ o. (is_set o && is_text o id) ≡ true) (sym e) (rw (h, eq_refl id) refl))

module _ {N : Type 0} where
  -- No drum that the dialog "Move" offers holds a line of the list, the moved one included; drums have
  -- ids that are not empty.
  move_targets-free :
      (t : Target) (l m : LineRow) (lines : List LineRow) (layout : Layout N)
      → Memᴰ t (move_targets l lines layout)
      → t.kind ≡ drum
      → truthy t.id ≡ true
      → Memᴰ m lines
      → m.current_drum_id ≢ some t.id
  move_targets-free t l m lines layout k e h n o = elim ((offered_iff t l lines layout).0 k) [
    | inl f ↦
        let (w, d, a, b, free, q) = f in
        let taken =
          is_occupied_of_mem lines m d.id n (ap (λ t'. truthy t'.id) (sym q) ∙ h)
            (o ∙ ap (λ t'. some t'.id) q) in
        ground (arith, taken, free)
    | inr f ↦ absurd (storage-ne-drum (sym (ap (λ t'. t'.kind) f.3) ∙ e))
  ]
    where
      storage-ne-drum : storage ≢ drum
      storage-ne-drum q = cc

module _ {N : Type 0} where
  -- A drum of a winch that no line of the list is on, nor the moved line itself.
  abbrev pub UnusedDrum : Target → LineRow → List LineRow → List (Winch N) → Type 0
  UnusedDrum t l lines ws =
      (w : Winch N) × (d : Drum) × Memᴰ w ws
      × Memᴰ d w.drums
      × All (λ m. m.current_drum_id ≢ some d.id) lines
      × (l.current_drum_id ≢ some d.id)
      × (t ≡ record { id = d.id; kind = drum; label = drum_label w.label d; station = w.station })

  -- A store that the moved line is not in.
  abbrev pub NewStore : Target → LineRow → List (Storage N) → Type 0
  NewStore t l ss =
      (s : Storage N) × Memᴰ s ss
      × (l.current_storage_id ≢ some s.id)
      × (t ≡ record { id = s.id; kind = storage; label = s.label; station = s.station })

  abbrev pub HasDrumIds : List (Winch N) → Type 0
  HasDrumIds ws = All (λ w. All (λ d. truthy d.id ≡ true) w.drums) ws

  pub drum_id-truthy :
      (w : Winch N) (d : Drum) (ws : List (Winch N))
      → HasDrumIds ws
      → Memᴰ w ws
      → Memᴰ d w.drums
      → truthy d.id ≡ true
  drum_id-truthy w d ws h m n =
      All-mem (λ e. truthy e.id ≡ true) d w.drums
        (All-mem (λ v. All (λ e. truthy e.id ≡ true) v.drums) w ws h m) n

  -- The dialog "Move" offers exactly the drums of all winches that no line of the list is on, nor the
  -- moved line by its own row, and the stores that the moved line is not in, each with its id, kind, label
  -- and station, if no drum's id is the empty text.
  pub move_targets_iff :
      (t : Target) (l : LineRow) (lines : List LineRow) (layout : Layout N)
      → HasDrumIds layout.winches
      → Memᴰ t (move_targets l lines layout)
        ↔ (UnusedDrum t l lines layout.winches ⊎ NewStore t l layout.storage)
  move_targets_iff t l lines layout ids = (
    λ m. elim ((offered_iff t l lines layout).0 m) [
      | inl (w, d, a, b, free, e) ↦ inl (
        w,
        d,
        a,
        b,
        (is_occupied_iff lines d.id (drum_id-truthy w d layout.winches ids a b)).0
            (ground (arith, free)),
        (is_text_iff l.current_drum_id d.id).0 (ground (arith, free)),
        e,
      )
      | inr (s, a, n, e) ↦ inr (s, a, (is_text_iff l.current_storage_id s.id).0 n, e)
    ],
    λ h. (offered_iff t l lines layout).1 (elim h [
      | inl (w, d, a, b, unused, n, e) ↦
          let o =
            (is_occupied_iff lines d.id (drum_id-truthy w d layout.winches ids a b)).1 unused in
          let c = (is_text_iff l.current_drum_id d.id).1 n in
          inl (w, d, a, b, ground (arith, o, c), e)
      | inr (s, a, n, e) ↦ inr (s, a, (is_text_iff l.current_storage_id s.id).1 n, e)
    ]),
  )

is_assignable_iff :
    (l : LineRow)
    → (is_assignable l ≡ true) ↔ (
        (is_set l.current_drum_id ≡ false)
        × ((l.lifecycle_status ≡ "spare")
            ⊎ ((l.lifecycle_status ≡ "active") × (is_set l.current_storage_id ≡ true))))
unfolding is_assignable
is_assignable_iff l =
    ground (arith, eq_iff l.lifecycle_status "spare", eq_iff l.lifecycle_status "active")

-- The dialog "Assign" offers exactly the lines that are on no drum and are a spare, or an active line
-- that lies in a store.
assign_candidates_iff :
    (l : LineRow) (lines : List LineRow)
    → Memᴰ l (assign_candidates lines) ↔ (
        Memᴰ l lines
        × (is_set l.current_drum_id ≡ false)
        × ((l.lifecycle_status ≡ "spare")
            ⊎ ((l.lifecycle_status ≡ "active") × (is_set l.current_storage_id ≡ true))))
unfolding assign_candidates
assign_candidates_iff l lines = (
  λ m.
      let (n, e) = (mem-filter_iff is_assignable l lines).0 m in
      let (a, b) = (is_assignable_iff l).0 e in (n, a, b),
  λ h. (mem-filter_iff is_assignable l lines).1 (h.0, (is_assignable_iff l).1 (h.1, h.2)),
)
