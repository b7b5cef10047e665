-- ===== src/Gossip/Known.antt =====
-- system.c: which entry of a peer is kept, and for how long.
use mathlib.Core.Path.{subst}
use soter.Base.{
  eqb_flip, ℕ, zero, suc, ◌≡◌, refl, sym, ap, ◌∙◌, ◌⊎◌, inl, inr, Bool, true, false, Option, none,
  some, List, [], ◌∷◌, ◌++◌, arith, leb, eqb, eqb→eq, le→leb, if◌then◌else◌, remove_at, All,
  Bool-cases, eqb_refl, All-append,
}
use soter.Gossip.{Entry, Gossip, find_uid, pushed, new_entry, create_entry}

module _ {Addr Md : Type 0} where
  -- What is known of a peer: the first entry with its UID.
  abbrev pub known : List (Entry Addr Md) → ℕ → Option (Entry Addr Md)
  known [] u = none
  known (e ∷ es) u = let rest = known es u in if eqb e.uid u then some e else rest

  abbrev pub Unlike : ℕ → List (Entry Addr Md) → Type 0
  Unlike u es = All (λ x. eqb x.uid u ≡ false) es

  -- No two entries of one peer.
  abbrev pub Apart : List (Entry Addr Md) → Type 0
  Apart [] = Unit
  Apart (e ∷ es) = Unlike e.uid es × Apart es

  -- What the system keeps to: one entry for each peer, and none for itself.
  pub record IsSound (g : Gossip Addr Md) : Type 0 where
    pub apart : Apart g.gossips
    pub others : Unlike g.self_uid g.gossips

  -- The newer of what is known and what is heard.
  abbrev pub newer : Option (Entry Addr Md) → Entry Addr Md → Option (Entry Addr Md)
  newer none e = some e
  newer (some x) e = if leb e.version x.version then some x else some e

  Unlike-remove_at : (u i : ℕ) (es : List (Entry Addr Md)) → Unlike u es → Unlike u (remove_at i es)
  Unlike-remove_at u i [] h = tt
  Unlike-remove_at u zero (e ∷ es) (h, hs) = hs
  Unlike-remove_at u (suc i) (e ∷ es) (h, hs) = (h, Unlike-remove_at u i es hs)

  Apart-remove_at : (i : ℕ) (es : List (Entry Addr Md)) → Apart es → Apart (remove_at i es)
  Apart-remove_at i [] h = tt
  Apart-remove_at zero (e ∷ es) (h, hs) = hs
  Apart-remove_at (suc i) (e ∷ es) (h, hs) =
      (Unlike-remove_at e.uid i es h, Apart-remove_at i es hs)

  Apart-snoc :
      (es : List (Entry Addr Md)) (e : Entry Addr Md)
      → Apart es
      → Unlike e.uid es
      → Apart (es ++ (e ∷ []))
  Apart-snoc [] e a h = (tt, tt)
  Apart-snoc (x ∷ es) e (ha, has) (h, hs) =
      (All-append _ es (e ∷ []) ha (eqb_flip x.uid e.uid h, tt), Apart-snoc es e has hs)

  -- `x` is the entry of `u`, at index `i`, and the other peers' entries are the rest.
  record IsAt (u i : ℕ) (x : Entry Addr Md) (es : List (Entry Addr Md)) : Type 0 where
    here : find_uid u es ≡ some (i, x)
    at : known es u ≡ some x
    free : Unlike u (remove_at i es)
    rest : (v : ℕ) → eqb u v ≡ false → known (remove_at i es) v ≡ known es v

  -- What `find_uid` finds: nothing of the peer, or its only entry.
  find_uid_lem :
      (u : ℕ) (es : List (Entry Addr Md))
      → Apart es
      → ((find_uid u es ≡ none) × (known es u ≡ none) × Unlike u es)
        ⊎ ((i : ℕ) × (x : Entry Addr Md) × IsAt u i x es)
  unfolding find_uid
  find_uid_lem u [] a = inl (refl, refl, tt)
  find_uid_lem u (e ∷ es) (ha, has) = elim (Bool-cases (eqb e.uid u)) [
    | inl here ↦
        let same : e.uid ≡ u = eqb→eq e.uid u here in
        inr (
          0,
          e,
          record {
            here = rw here refl;
            at = rw here refl;
            free = subst (λ v. Unlike v es) same ha;
            rest = λ v h. rw (ap (λ w. eqb w v) same ∙ h) refl;
          },
        )
    | inr other ↦ elim (find_uid_lem u es has) [
      | inl (missing, unknown, free) ↦
          inl (rw (other, missing) refl, rw (other, unknown) refl, (other, free))
      | inr (i, x, f) ↦ inr (
        suc i,
        x,
        record {
          here = rw (other, f.here) refl;
          at = rw (other, f.at) refl;
          free = (other, f.free);
          rest = λ v h. ap (λ t. if eqb e.uid v then some e else t) (f.rest v h);
        },
      )
    ]
  ]

  known-snoc-same :
      (es : List (Entry Addr Md)) (e : Entry Addr Md)
      → Unlike e.uid es
      → known (es ++ (e ∷ [])) e.uid ≡ some e
  known-snoc-same [] e h = rw (eqb_refl e.uid) refl
  known-snoc-same (x ∷ es) e (h, hs) = rw h (known-snoc-same es e hs)

  known-snoc-other :
      (es : List (Entry Addr Md)) (e : Entry Addr Md) (u : ℕ)
      → eqb e.uid u ≡ false
      → known (es ++ (e ∷ [])) u ≡ known es u
  known-snoc-other [] e u h = rw h refl
  known-snoc-other (x ∷ es) e u h = elim (Bool-cases (eqb x.uid u)) [
    | inl here ↦ rw here refl
    | inr other ↦ rw other (known-snoc-other es e u h)
  ]

  pushed-IsSound :
      (room : Bool) (g : Gossip Addr Md) (es : List (Entry Addr Md)) (e : Entry Addr Md)
      → Apart es
      → Unlike g.self_uid es
      → Unlike e.uid es
      → eqb e.uid g.self_uid ≡ false
      → IsSound (record g { gossips = pushed room es e })
  pushed-IsSound true g es e a o free other = record {
    apart = Apart-snoc es e a free;
    others = All-append _ es (e ∷ []) o (other, tt);
  }
  pushed-IsSound false g es e a o free other = record { apart = a; others = o }

  -- Whatever is heard, a sound system stays sound.
  pub new_entry-IsSound :
      (room : Bool) (g : Gossip Addr Md) (e : Entry Addr Md)
      → IsSound g
      → IsSound (new_entry room g e)
  unfolding new_entry
  new_entry-IsSound room g e s = elim (Bool-cases (eqb e.uid g.self_uid)) [
    | inl self ↦ rw (new_entry, self) s
    | inr other ↦ elim (find_uid_lem e.uid g.gossips s.apart) [
      | inl (missing, unknown, free) ↦
          rw (new_entry, other, missing)
            (pushed-IsSound room g g.gossips e s.apart s.others free other)
      | inr (i, x, f) ↦ elim (Bool-cases (leb e.version x.version)) [
        | inl old ↦ rw (new_entry, other, f.here, old) s
        | inr new ↦
            rw (new_entry, other, f.here, new)
              (pushed-IsSound room g (remove_at i g.gossips) e (Apart-remove_at i g.gossips s.apart)
                (Unlike-remove_at g.self_uid i g.gossips s.others) f.free other)
      ]
    ]
  ]

  -- An entry is put behind those of others, among which the rest is as it was.
  known-pushed :
      (es old : List (Entry Addr Md)) (e : Entry Addr Md) (u : ℕ)
      → Unlike e.uid es
      → newer (known old e.uid) e ≡ some e
      → ((v : ℕ) → eqb e.uid v ≡ false → known es v ≡ known old v)
      → known (es ++ (e ∷ [])) u ≡ (if eqb e.uid u then newer (known old u) e else known old u)
  known-pushed es old e u free takes rest = elim (Bool-cases (eqb e.uid u)) [
    | inl same ↦ rw same (
        subst (λ v. known (es ++ (e ∷ [])) v ≡ newer (known old v) e) (eqb→eq e.uid u same)
          (known-snoc-same es e free ∙ sym takes))
    | inr other ↦ rw other (known-snoc-other es e u other ∙ rest u other)
  ]

  known-kept :
      (es : List (Entry Addr Md)) (e x : Entry Addr Md) (u : ℕ)
      → known es e.uid ≡ some x
      → leb e.version x.version ≡ true
      → known es u ≡ (if eqb e.uid u then newer (known es u) e else known es u)
  known-kept es e x u at old = elim (Bool-cases (eqb e.uid u)) [
    | inl same ↦ rw same (
        subst (λ v. known es v ≡ newer (known es v) e) (eqb→eq e.uid u same)
          (at ∙ sym (ap (λ o. newer o e) at ∙ rw old refl)))
    | inr other ↦ rw other refl
  ]

  -- What is known of a peer after something is heard, there being room: the newer entry where the
  -- peer is the one that was heard of, unless that is the system itself, and else what was known.
  pub known-new_entry :
      (g : Gossip Addr Md) (e : Entry Addr Md) (u : ℕ)
      → IsSound g
      → known (new_entry true g e).gossips u ≡ (
          if eqb e.uid g.self_uid
          then known g.gossips u
          else if eqb e.uid u
          then newer (known g.gossips u) e
          else known g.gossips u)
  unfolding new_entry
  known-new_entry g e u s = elim (Bool-cases (eqb e.uid g.self_uid)) [
    | inl self ↦ rw (new_entry, self) refl
    | inr other ↦ elim (find_uid_lem e.uid g.gossips s.apart) [
      | inl (missing, unknown, free) ↦
          rw (new_entry, other, missing)
            (known-pushed g.gossips g.gossips e u free (ap (λ o. newer o e) unknown) (λ v h. refl))
      | inr (i, x, f) ↦ elim (Bool-cases (leb e.version x.version)) [
        | inl old ↦ rw (new_entry, other, f.here, old) (known-kept g.gossips e x u f.at old)
        | inr new ↦
            rw (new_entry, other, f.here, new)
              (known-pushed (remove_at i g.gossips) g.gossips e u f.free
                (ap (λ o. newer o e) f.at ∙ rw new refl) f.rest)
      ]
    ]
  ]

  -- Entries that a node makes itself, all of version 0, never take the place of one it has: what it
  -- has of a peer is not refreshed.
  pub new_entry-create_entry :
      (hton : Addr → Addr) (room : Bool) (g : Gossip Addr Md) (x : Entry Addr Md) (now uid : ℕ)
      (addr : Addr) (md : Md) (convert : Bool)
      → IsSound g
      → known g.gossips uid ≡ some x
      → new_entry room g (create_entry hton now uid addr md convert) ≡ g
  unfolding new_entry create_entry
  new_entry-create_entry hton room g x now uid addr md convert s at =
      elim (Bool-cases (eqb uid g.self_uid)) [
        | inl self ↦ rw (new_entry, self) refl
        | inr other ↦ elim (find_uid_lem uid g.gossips s.apart) [
          | inl (missing, unknown, free) ↦ let bad : none ≡ some x = sym unknown ∙ at in cc
          | inr (i, y, f) ↦ rw (new_entry, other, f.here, le→leb 0 y.version (omega arith)) refl
        ]
      ]
