-- ===== src/Dispatcher/Isolation.antt =====
-- dispatcher.c: a packet touches the connection of the peer that sent it and no other.
use soter.Base.{
  if◌then◌else◌, none, ℕ, ◌<◌, ◌≡◌, refl, sym, ap, lt→ltb, inl, inr, Bool, false, some, [], eqb,
  u32_max, nat_bytes, ◌==◌, Bool-cases, Option-cases, ◌∙◌, ◌≢◌, ==-eq,
}
use mathlib.Core.Path.{subst}
use soter.Proto.{Pack, copy_pack, type_code, type_max, pack_data, pack_rack, pack_fin}
use soter.Rudp.{Conn, conn_new, conn_close, conn_close-c_uid}
use soter.Rudp.Ack.{handle_rack, handle_rack-c_uid}
use soter.Rudp.Handler.{handle_data, handle_data-c_uid}
use soter.Table.{Grants, get, modify, remove}
use soter.Table.Map.{IsMap, set_lem, modify_lem, remove_lem}
use soter.Dispatcher.{
  Disp, est_connection, get_connection, net_handler, close_connection, dispatch, written, continued,
  crashed,
}

apart : (uid other : ℕ) → uid ≢ other → (uid == other) ≡ false
apart uid other ne = elim (Bool-cases (uid == other)) [
  | inl same ↦ absurd (ne (==-eq uid other same))
  | inr differ ↦ differ
]

-- The other connections, and that the keys stay distinct.
Spared : Disp → Disp → ℕ → Type 0
Spared d d' other =
    IsMap d'.connections.pairs × (get d'.connections other ≡ get d.connections other)

written-Spared :
    (d : Disp) (uid other : ℕ) (f : Conn → Conn)
    → IsMap d.connections.pairs
    → uid ≢ other
    → Spared d (written d (modify d.connections uid f)) other
unfolding Spared
written-Spared d uid other f distinct ne = elim (modify_lem d.connections uid other f distinct) [
  | inl (gone, unknown) ↦ rw gone (distinct, refl)
  | inr (t, old, done, there, keeps, reads) ↦ rw done (keeps, reads ∙ rw (apart uid other ne) refl)
]

close-Spared :
    (granted : Bool) (d : Disp) (uid other : ℕ)
    → IsMap d.connections.pairs
    → uid ≢ other
    → Spared d (close_connection granted d uid).1 other
unfolding Spared close_connection
close-Spared granted d uid other distinct ne =
    elim (modify_lem d.connections uid other (conn_close granted) distinct) [
      | inl (gone, unknown) ↦ rw (close_connection, gone) (distinct, refl)
      | inr (t, old, done, there, keeps, reads) ↦
          let (keeps', reads', how) = remove_lem t uid other keeps in
          let differ : (uid == other) ≡ false = apart uid other ne in
          rw (close_connection, done) (keeps', reads' ∙ rw differ (reads ∙ rw differ refl))
    ]

-- Every connection of the table stands under its own UID.
unfoldable pub Keyed : Disp → Type 0
Keyed d = (uid : ℕ) (c : Conn) → get d.connections uid ≡ some c → c.c_uid ≡ uid

written-Keyed :
    (d : Disp) (uid : ℕ) (f : Conn → Conn)
    → ((c : Conn) → (f c).c_uid ≡ c.c_uid)
    → IsMap d.connections.pairs
    → Keyed d
    → Keyed (written d (modify d.connections uid f))
unfolding Keyed
written-Keyed d uid f same_peer distinct keyed q c there =
    elim (modify_lem d.connections uid q f distinct) [
      | inl (gone, unknown) ↦
          keyed q c (ap (λ m. get (written d m).connections q) (sym gone) ∙ there)
      | inr (t, old, done, stood, keeps, reads) ↦
          let now : (if uid == q then some (f old) else get d.connections q) ≡ some c =
            sym reads ∙ ap (λ m. get (written d m).connections q) (sym done) ∙ there in
          elim (Bool-cases (uid == q)) [
            | inl same ↦
                let both : some (f old) ≡ some c =
                  sym (ap (λ b. if b then some (f old) else get d.connections q) same) ∙ now in
                let new : f old ≡ c = cc in
                sym (ap (λ x. x.c_uid) new) ∙ same_peer old ∙ keyed uid old stood ∙ ==-eq uid q same
            | inr differ ↦
                keyed q c
                  (sym (ap (λ b. if b then some (f old) else get d.connections q) differ) ∙ now)
          ]
    ]

removed-Keyed :
    (d : Disp) (uid : ℕ)
    → IsMap d.connections.pairs
    → Keyed d
    → Keyed (record d { connections = (remove d.connections uid).1 })
unfolding Keyed
removed-Keyed d uid distinct keyed q c there =
    let (_, reads, _) = remove_lem d.connections uid q distinct in
    let now : (if uid == q then none else get d.connections q) ≡ some c = sym reads ∙ there in
    elim (Bool-cases (uid == q)) [
      | inl same ↦
          let gone : none ≡ some c =
            sym (ap (λ b. if b then none else get d.connections q) same) ∙ now in
          cc
      | inr differ ↦
          keyed q c (sym (ap (λ b. if b then none else get d.connections q) differ) ∙ now)
    ]

close-Keyed :
    (granted : Bool) (d : Disp) (uid : ℕ)
    → IsMap d.connections.pairs
    → Keyed d
    → Keyed (close_connection granted d uid).1
unfolding close_connection
close-Keyed granted d uid distinct keyed =
    elim (modify_lem d.connections uid uid (conn_close granted) distinct) [
      | inl (gone, unknown) ↦ rw (close_connection, gone) keyed
      | inr (t, old, done, there, keeps, reads) ↦
          let closed : Keyed (record d { connections = t }) =
            subst (λ m. Keyed (written d m)) done
              (written-Keyed d uid (conn_close granted) (conn_close-c_uid granted) distinct
                keyed) in
          rw (close_connection, done)
            (removed-Keyed (record d { connections = t }) uid keeps closed)
    ]

-- A packet of a known type to a connection that stands under its own UID.
net_handler-Spared :
    (granted : Bool) (now : ℕ) (d : Disp) (uid : ℕ) (c : Conn) (pkt : Pack) (other : ℕ)
    → IsMap d.connections.pairs
    → Keyed d
    → c.c_uid ≡ uid
    → uid ≢ other
    → pkt.packtype < type_max
    → (d' : Disp) × (net_handler granted now d uid c pkt ≡ continued d')
      × Keyed d'
      × Spared d d' other
unfolding net_handler Spared
net_handler-Spared granted now d uid c pkt other distinct keyed own ne known =
    elim (Bool-cases (eqb pkt.packtype (type_code pack_data))) [
      | inl data_pkt ↦ (
        written d (modify d.connections uid (λ x. handle_data granted now x pkt)),
        rw (net_handler, data_pkt) refl,
        written-Keyed d uid _ (λ x. handle_data-c_uid granted now x pkt) distinct keyed,
        written-Spared d uid other _ distinct ne,
      )
      | inr e ↦ elim (Bool-cases (eqb pkt.packtype (type_code pack_rack))) [
        | inl rack ↦ (
          written d (modify d.connections uid (λ x. handle_rack now x pkt)),
          rw (net_handler, e, rack) refl,
          written-Keyed d uid _ (λ x. handle_rack-c_uid now x pkt) distinct keyed,
          written-Spared d uid other _ distinct ne,
        )
        | inr f ↦ elim (Bool-cases (eqb pkt.packtype (type_code pack_fin))) [
          | inl fin ↦ (
            (close_connection granted d uid).1,
            rw (net_handler, e, f, fin, own) refl,
            close-Keyed granted d uid distinct keyed,
            close-Spared granted d uid other distinct ne,
          )
          | inr g ↦ (
            d,
            rw (net_handler, e, f, g, lt→ltb pkt.packtype type_max known) refl,
            keyed,
            (distinct, refl),
          )
        ]
      ]
    ]

-- A connection that is established stands under its own UID, and so do the others still.
pub est_connection-Keyed :
    (granted : Grants) (now : ℕ) (d : Disp) (other_uid : ℕ)
    → IsMap d.connections.pairs
    → Keyed d
    → Keyed (est_connection granted now d other_uid)
unfolding Keyed est_connection conn_new
est_connection-Keyed granted now d other_uid distinct keyed uid c there =
    let (_, outcome) =
      set_lem granted d.connections other_uid (conn_new d.self_uid other_uid now) uid distinct in
    elim outcome [
      | inl (_, reads) ↦ elim (Bool-cases (other_uid == uid)) [
        | inl same ↦
            let new : conn_new d.self_uid other_uid now ≡ c =
              let both : some (conn_new d.self_uid other_uid now) ≡ some c =
                sym (reads ∙ rw same refl) ∙ there in
              cc in
            sym (ap (λ x. x.c_uid) new) ∙ ==-eq other_uid uid same
        | inr differ ↦ keyed uid c (sym (reads ∙ rw differ refl) ∙ there)
      ]
      | inr (_, same, _) ↦ keyed uid c (ap (λ t. get t uid) (sym same) ∙ there)
    ]

own_uid : (d : Disp) (uid : ℕ) (c : Conn) → Keyed d → get d.connections uid ≡ some c → c.c_uid ≡ uid
unfolding Keyed
own_uid d uid c keyed there = keyed uid c there

-- A packet of one of the fourteen types, from a peer whose UID is not `UINT32_MAX`, that holds the data
-- it announces is always dispatched where every connection stands under its own UID.  It leaves every
-- other peer's connection as it was, the UIDs in the table distinct, and every connection under its
-- own UID.
pub dispatch_lem :
    (granted : Bool) (rand now : ℕ) (d : Disp) (pkt copy : Pack) (other : ℕ)
    → IsMap d.connections.pairs
    → Keyed d
    → pkt.h_from ≢ u32_max
    → copy_pack pkt ≡ some copy
    → copy.packtype < type_max
    → pkt.h_from ≢ other
    → (d' : Disp) × (dispatch granted rand now d pkt ≡ continued d')
      × Keyed d'
      × IsMap d'.connections.pairs
      × (get d'.connections other ≡ get d.connections other)
unfolding dispatch get_connection Spared
dispatch_lem granted rand now d pkt copy other distinct keyed known whole typed ne =
    let one : eqb pkt.h_from u32_max ≡ false = apart pkt.h_from u32_max known in
    elim (Option-cases (get d.connections pkt.h_from)) [
      | inl nobody ↦ (d, rw (dispatch, get_connection, one, nobody) refl, keyed, distinct, refl)
      | inr (c, there) ↦
          let (d', handled, own, (keeps, same)) =
            net_handler-Spared granted now d pkt.h_from c copy other distinct keyed
              (own_uid d pkt.h_from c keyed there) ne typed in
          (d', rw (dispatch, get_connection, one, there, whole) handled, own, keeps, same)
    ]

-- A packet that claims to come from `UINT32_MAX` crashes a dispatcher without connections.
pub dispatch-crashed :
    (granted : Bool) (rand now : ℕ) (d : Disp) (pkt : Pack)
    → d.connections.pairs ≡ []
    → pkt.h_from ≡ u32_max
    → dispatch granted rand now d pkt ≡ crashed
unfolding dispatch get_connection
dispatch-crashed granted rand now d pkt nobody any = rw (dispatch, get_connection, any, nobody) refl
