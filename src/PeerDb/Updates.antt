-- ===== src/PeerDb/Updates.antt =====
-- peerdb.c: what the database reads after each update of a peer's entry.
use mathlib.Core.Path.{subst}
use soter.Base.{
  ℕ, ◌≡◌, refl, sym, ap, ◌∙◌, inl, inr, Option, none, some, eqb, eqb→eq, eqb_refl, if◌then◌else◌,
  nat_bytes, u32_mod, ◌%◌, Bool-cases,
}
use soter.Table.{Grants, modify}
use soter.Table.Map.{IsMap, modify_lem, set_lem}
use soter.PeerDb.{Peer, PeerState, Db, db_get, db_schange, db_unfd, db_utime, db_add, written}

module _ {Addr Sock : Type 0} where
  abbrev pub changed :
      (Peer Addr Sock → Peer Addr Sock) → Option (Peer Addr Sock) → Option (Peer Addr Sock)
  changed f none = none
  changed f (some info) = some (f info)

  -- What the entry of `other` is once that of `uid` was written to.
  abbrev pub after :
      (Peer Addr Sock → Peer Addr Sock) → Db Addr Sock → ℕ → ℕ → Option (Peer Addr Sock)
  after f db uid other = if eqb uid other then changed f (db_get db other) else db_get db other

  at_uid :
      (f : Peer Addr Sock → Peer Addr Sock) (db : Db Addr Sock) (uid other : ℕ)
      → (old : Option (Peer Addr Sock)) → db_get db uid ≡ old
      → (if eqb uid other then changed f old else db_get db other) ≡ after f db uid other
  at_uid f db uid other old e = elim (Bool-cases (eqb uid other)) [
    | inr apart ↦ rw (apart) refl
    | inl same ↦ rw same (ap (changed f) (sym e ∙ ap (db_get db) (eqb→eq uid other same)))
  ]

  written_lem :
      (f : Peer Addr Sock → Peer Addr Sock) (db : Db Addr Sock) (uid other : ℕ)
      → IsMap db.pairs
      → IsMap (written db (modify db uid f)).1.pairs
        × (db_get (written db (modify db uid f)).1 other ≡ after f db uid other)
  unfolding db_get
  written_lem f db uid other m = elim (modify_lem db uid other f m) [
    | inl (gone, unknown) ↦ rw gone (
      m,
      elim (Bool-cases (eqb uid other)) [
        | inr apart ↦ rw apart refl
        | inl same ↦ rw same (
            subst (λ v. db_get db v ≡ changed f (db_get db v)) (eqb→eq uid other same)
              (unknown ∙ sym (ap (changed f) unknown)))
      ],
    )
    | inr (db', old, done, there, keeps, reads) ↦
        rw done (keeps, reads ∙ at_uid f db uid other (some old) there)
  ]

  pub db_schange-after :
      (db : Db Addr Sock) (uid other : ℕ) (state : PeerState)
      → IsMap db.pairs
      → IsMap (db_schange db uid state).1.pairs
        × (db_get (db_schange db uid state).1 other
            ≡ after (λ info. record info { state = state }) db uid other)
  unfolding db_schange
  db_schange-after db uid other state m =
      written_lem (λ info. record info { state = state }) db uid other m

  pub db_unfd-after :
      (db : Db Addr Sock) (uid other : ℕ) (nfd : Sock)
      → IsMap db.pairs
      → IsMap (db_unfd db uid nfd).1.pairs
        × (db_get (db_unfd db uid nfd).1 other
            ≡ after (λ info. record info { nfd = nfd }) db uid other)
  unfolding db_unfd
  db_unfd-after db uid other nfd m = written_lem (λ info. record info { nfd = nfd }) db uid other m

  pub db_utime-after :
      (now : ℕ) (db : Db Addr Sock) (uid other : ℕ)
      → IsMap db.pairs
      → IsMap (db_utime now db uid).1.pairs
        × (db_get (db_utime now db uid).1 other
            ≡ after (λ info. record info { last_seen = now % u32_mod }) db uid other)
  unfolding db_utime
  db_utime-after now db uid other m =
      written_lem (λ info. record info { last_seen = now % u32_mod }) db uid other m

  after-known :
      (f : Peer Addr Sock → Peer Addr Sock) (db : Db Addr Sock) (uid key : ℕ)
      (info : Peer Addr Sock)
      → uid ≡ key
      → db_get db key ≡ some info
      → after f db uid key ≡ some (f info)
  after-known f db uid key info e there =
      rw (ap (λ u. eqb u key) e ∙ eqb_refl key) (ap (changed f) there)

  pub db_schange-known :
      (db : Db Addr Sock) (uid key : ℕ) (state : PeerState) (info : Peer Addr Sock)
      → IsMap db.pairs
      → uid ≡ key
      → db_get db key ≡ some info
      → IsMap (db_schange db uid state).1.pairs
        × (db_get (db_schange db uid state).1 key ≡ some (record info { state = state }))
  db_schange-known db uid key state info m e there =
      let (keeps, reads) = db_schange-after db uid key state m in
      (keeps, reads ∙ after-known (λ i. record i { state = state }) db uid key info e there)

  pub db_unfd-known :
      (db : Db Addr Sock) (uid key : ℕ) (nfd : Sock) (info : Peer Addr Sock)
      → IsMap db.pairs
      → uid ≡ key
      → db_get db key ≡ some info
      → IsMap (db_unfd db uid nfd).1.pairs
        × (db_get (db_unfd db uid nfd).1 key ≡ some (record info { nfd = nfd }))
  db_unfd-known db uid key nfd info m e there =
      let (keeps, reads) = db_unfd-after db uid key nfd m in
      (keeps, reads ∙ after-known (λ i. record i { nfd = nfd }) db uid key info e there)

  -- A peer that is known is replaced by one that is added with its UID.
  pub db_add-known :
      (granted : Grants) (db : Db Addr Sock) (info old : Peer Addr Sock)
      → IsMap db.pairs
      → db_get db info.uid ≡ some old
      → IsMap (db_add granted db info).1.pairs
        × (db_get (db_add granted db info).1 info.uid ≡ some info)
  unfolding db_add db_get
  db_add-known granted db info old m there =
      let (keeps, ends) = set_lem granted db info.uid info info.uid m in
      (
        keeps,
        elim ends [
          | inl (status, reads) ↦ reads ∙ rw (eqb_refl info.uid) refl
          | inr (status, same, gone) ↦ let bad : none ≡ some old = sym gone ∙ there in cc
        ],
      )
