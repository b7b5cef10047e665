-- ===== src/Gossip/Cleanup.antt =====
-- system.c: what `gossip_cleanup` keeps.
use mathlib.Core.Path.{subst⁻¹}
use soter.Base.{
  ℕ, zero, suc, ◌+◌, ◌<◌, ◌≤◌, Bool, ◌&&◌, ltb, leb, All, ◌≡◌, refl, sym, ap, ap₂, ◌∙◌, inl, inr,
  none, some, List, [], ◌∷◌, ◌++◌, arith, if◌then◌else◌, length, get_elem?, remove_at, Bool-cases,
  append_assoc, length-append,
}
use soter.Gossip.{Entry, Gossip, is_fresh, cleanup_from, cleanup}
use soter.Gossip.Known.{Unlike, Apart, IsSound}

module _ {Addr Md : Type 0} where
  -- The entries that are less than an hour old, and not from the future.
  abbrev pub lately : ℕ → Entry Addr Md → Bool
  lately now e = leb e.timestamp now && ltb now (e.timestamp + 3600)

  abbrev pub kept : ℕ → List (Entry Addr Md) → List (Entry Addr Md)
  kept now [] = []
  kept now (e ∷ es) = let rest = kept now es in if lately now e then e ∷ rest else rest

  -- Times before the year 292 277 026 596, in seconds: the difference of two does not wrap to a small one.
  abbrev pub Timed : Entry Addr Md → Type 0
  Timed e = e.timestamp < 9223372036854775808

  is_fresh-lately :
      (now : ℕ) (e : Entry Addr Md)
      → now < 9223372036854775808
      → Timed e
      → is_fresh now e ≡ lately now e
  unfolding is_fresh
  is_fresh-lately now e hn he = ground (arith, hn, he)

  get_elem?-middle :
      (pre : List (Entry Addr Md)) (e : Entry Addr Md) (es : List (Entry Addr Md))
      → get_elem? (pre ++ (e ∷ es)) (length pre) ≡ some e
  get_elem?-middle [] e es = refl
  get_elem?-middle (x ∷ pre) e es = get_elem?-middle pre e es

  get_elem?-behind : (pre : List (Entry Addr Md)) → get_elem? (pre ++ []) (length pre) ≡ none
  get_elem?-behind [] = refl
  get_elem?-behind (x ∷ pre) = get_elem?-behind pre

  remove_at-middle :
      (pre : List (Entry Addr Md)) (e : Entry Addr Md) (es : List (Entry Addr Md))
      → remove_at (length pre) (pre ++ (e ∷ es)) ≡ pre ++ es
  remove_at-middle [] e es = refl
  remove_at-middle (x ∷ pre) e es = ap (λ t. x ∷ t) (remove_at-middle pre e es)

  cleanup_from-kept :
      (rounds now : ℕ) (pre es : List (Entry Addr Md))
      → now < 9223372036854775808
      → All Timed es
      → length es ≤ rounds
      → cleanup_from rounds now (length pre) (pre ++ es) ≡ pre ++ kept now es
  unfolding cleanup_from
  cleanup_from-kept zero now pre [] hn _ enough = refl
  cleanup_from-kept zero now pre (e ∷ es) hn _ enough = absurd (omega (arith, enough))
  cleanup_from-kept (suc rounds) now pre [] hn _ enough =
      rw (cleanup_from, get_elem?-behind pre) refl
  cleanup_from-kept (suc rounds) now pre (e ∷ es) hn (he, hs) enough =
      let same : is_fresh now e ≡ lately now e = is_fresh-lately now e hn he in
      elim (Bool-cases (lately now e)) [
        | inl fresh ↦
            rw (cleanup_from, get_elem?-middle pre e es, same, fresh)
              (ap₂ (cleanup_from rounds now) (omega (arith, length-append pre (e ∷ [])))
                  (sym (append_assoc pre (e ∷ []) es))
                ∙ cleanup_from-kept rounds now (pre ++ (e ∷ [])) es hn hs (omega (arith, enough))
                ∙ append_assoc pre (e ∷ []) (kept now es))
        | inr dead ↦
            rw (cleanup_from, get_elem?-middle pre e es, same, dead)
              (ap (cleanup_from rounds now (length pre)) (remove_at-middle pre e es)
                ∙ cleanup_from-kept rounds now pre es hn hs (omega (arith, enough)))
      ]

  -- The clean-up keeps, in their order, just the entries of less than an hour ago: one that is an hour
  -- old goes, and so does one from the future.
  pub cleanup_lem :
      (now : ℕ) (g : Gossip Addr Md)
      → now < 9223372036854775808
      → All Timed g.gossips
      → cleanup now g ≡ record g { gossips = kept now g.gossips }
  unfolding cleanup
  cleanup_lem now g hn he =
      ap (λ es. record g { gossips = es })
        (cleanup_from-kept (length g.gossips) now [] g.gossips hn he (omega arith))

  kept-Unlike : (now u : ℕ) (es : List (Entry Addr Md)) → Unlike u es → Unlike u (kept now es)
  kept-Unlike now u [] h = tt
  kept-Unlike now u (e ∷ es) (h, hs) = elim (Bool-cases (lately now e)) [
    | inl fresh ↦ rw fresh (h, kept-Unlike now u es hs)
    | inr dead ↦ rw dead (kept-Unlike now u es hs)
  ]

  kept-Apart : (now : ℕ) (es : List (Entry Addr Md)) → Apart es → Apart (kept now es)
  kept-Apart now [] h = tt
  kept-Apart now (e ∷ es) (h, hs) = elim (Bool-cases (lately now e)) [
    | inl fresh ↦ rw fresh (kept-Unlike now e.uid es h, kept-Apart now es hs)
    | inr dead ↦ rw dead (kept-Apart now es hs)
  ]

  -- The clean-up keeps a system sound.
  pub cleanup-IsSound :
      (now : ℕ) (g : Gossip Addr Md)
      → now < 9223372036854775808
      → All Timed g.gossips
      → IsSound g
      → IsSound (cleanup now g)
  cleanup-IsSound now g hn he s = subst⁻¹ IsSound (cleanup_lem now g hn he) (record {
    apart = kept-Apart now g.gossips s.apart;
    others = kept-Unlike now g.self_uid g.gossips s.others;
  })
