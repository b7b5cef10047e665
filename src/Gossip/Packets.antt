-- ===== src/Gossip/Packets.antt =====
-- system.c: entries as they travel, `gossip_to_data` and `gossip_from_packet`.
use soter.Base.{
  ℕ, zero, suc, ◌+◌, ◌-◌, ◌≤◌, ◌<◌, ◌≡◌, refl, sym, ap, ap₂, ◌∙◌, true, Option, none, some, List,
  [], ◌∷◌, ◌++◌, arith, length, take, drop, u32_mod, append_assoc, append-nil, length-append,
  take-length-append, drop-length-append, lt→ltb, le→not-ltb,
}
use soter.Proto.{Pack}
use soter.Proto.Machine.{Host}
use soter.Gossip.{
  Entry, Gossip, Layout, new_entry, stored, overread, take_entries, from_packet, all_bytes, to_data,
}

-- All that is heard at once, one entry after another.
abbrev pub heard : {Addr Md : Type 0} → Gossip Addr Md → List (Entry Addr Md) → Gossip Addr Md
heard g [] = g
heard g (e ∷ es) = heard (new_entry true g e) es

-- The bytes that were made, if any.
content : Option (List ℕ) → List ℕ
content none = []
content (some b) = b

module _ {Addr Md : Type 0} (host : Host) (layout : Layout Addr Md) where
  -- A round of the loop, where an entry stands at the offset.
  round :
      (n data_sz : ℕ) (pre rest : List ℕ) (e : Entry Addr Md) (g : Gossip Addr Md)
      → length pre + layout.size ≤ data_sz
      → take_entries host layout
          (suc n)
          data_sz
          (pre ++ (layout.entry_bytes e ++ rest))
          (length pre)
          g
        ≡ take_entries host layout n data_sz
            ((pre ++ layout.entry_bytes e) ++ rest)
            (length (pre ++ layout.entry_bytes e))
            (new_entry true g e)
  unfolding take_entries
  round n data_sz pre rest e g fits =
      let bytes : List ℕ = pre ++ (layout.entry_bytes e ++ rest) in
      let len : length (layout.entry_bytes e) ≡ layout.size = layout.length-entry_bytes e in
      let inside : length pre + layout.size ≤ length bytes = omega (
        arith,
        length-append pre (layout.entry_bytes e ++ rest),
        length-append (layout.entry_bytes e) rest,
        len,
      ) in
      let read : layout.entry_of (take layout.size (drop (length pre) bytes)) ≡ e =
        ap layout.entry_of (
          ap (take layout.size)
            (drop-length-append pre (layout.entry_bytes e ++ rest) (length pre) refl)
          ∙ take-length-append (layout.entry_bytes e) rest layout.size (sym len))
        ∙ layout.entry_of-entry_bytes e in
      rw
        (
          take_entries,
          le→not-ltb (length bytes) (length pre + layout.size) inside,
          le→not-ltb data_sz (length pre + layout.size) fits,
        )
        (ap
            (λ x.
              take_entries host layout n data_sz bytes (length pre + layout.size)
                (new_entry true g x))
            read
          ∙ ap₂ (λ b o. take_entries host layout n data_sz b o (new_entry true g e))
              (sym (append_assoc pre (layout.entry_bytes e) rest))
              (omega (arith, length-append pre (layout.entry_bytes e), len)))

  -- The rounds that the entries in the data take, and those that are left.
  take_entries-all_bytes :
      (n k data_sz : ℕ) (pre : List ℕ) (es : List (Entry Addr Md)) (g : Gossip Addr Md)
      → n ≡ length es + k
      → length (pre ++ all_bytes layout es) ≤ data_sz
      → take_entries host layout n data_sz (pre ++ all_bytes layout es) (length pre) g
        ≡ take_entries host layout k data_sz
            (pre ++ all_bytes layout es)
            (length (pre ++ all_bytes layout es))
            (heard g es)
  unfolding all_bytes
  take_entries-all_bytes n k data_sz pre [] g e fits =
      ap₂ (λ m o. take_entries host layout m data_sz (pre ++ []) o g) (omega (arith, e))
        (ap length (sym (append-nil pre)))
  take_entries-all_bytes zero k data_sz pre (x ∷ es) g e fits = absurd (omega (arith, e))
  take_entries-all_bytes (suc n) k data_sz pre (x ∷ es) g e fits =
      let xb : List ℕ = layout.entry_bytes x in
      let rest : List ℕ = all_bytes layout es in
      let split : (pre ++ xb) ++ rest ≡ pre ++ (xb ++ rest) = append_assoc pre xb rest in
      let room : length pre + layout.size ≤ data_sz = omega (
        arith,
        fits,
        length-append pre (xb ++ rest),
        length-append xb rest,
        layout.length-entry_bytes x,
      ) in
      round n data_sz pre rest x g room
      ∙ take_entries-all_bytes n k data_sz (pre ++ xb) es (new_entry true g x) (omega (arith, e))
          (omega (arith, fits, ap length split))
      ∙ ap (λ b. take_entries host layout k data_sz b (length b) (heard (new_entry true g x) es))
          split

  -- The head of the packet is read.
  from_packet-rounds :
      (g : Gossip Addr Md) (n : ℕ) (pack : Pack) (e : Entry Addr Md) (es : List (Entry Addr Md))
      → n < u32_mod
      → pack.data_bytes ≡ host.bytes_of (host.htonl n) ++ all_bytes layout (e ∷ es)
      → pack.d_size ≡ length pack.data_bytes
      → from_packet host layout g pack
        ≡ take_entries host layout n pack.d_size (all_bytes layout (e ∷ es)) 0 g
  unfolding from_packet all_bytes
  from_packet-rounds g n pack e es small bytes whole =
      let head : List ℕ = host.bytes_of (host.htonl n) in
      let tail : List ℕ = all_bytes layout (e ∷ es) in
      let four : length head ≡ 4 = host.length-bytes_of (host.htonl n) in
      let long : layout.size + 4 ≤ length pack.data_bytes = omega (
        arith,
        ap length bytes,
        length-append head tail,
        four,
        length-append (layout.entry_bytes e) (all_bytes layout es),
        layout.length-entry_bytes e,
      ) in
      let count : host.ntohl (host.word_of (take 4 pack.data_bytes)) ≡ n =
        ap (λ b. host.ntohl (host.word_of b))
          (ap (take 4) bytes ∙ take-length-append head tail 4 (sym four))
        ∙ ap host.ntohl (host.word_of-bytes_of (host.htonl n) (host.htonl-lt n))
        ∙ host.ntohl-htonl n small in
      rw
        (
          from_packet,
          le→not-ltb pack.d_size (layout.size + 4) (omega (arith, whole, long)),
          le→not-ltb (length pack.data_bytes) 4 (omega (arith, long)),
        )
        (ap₂ (λ m b. take_entries host layout m pack.d_size b 0 g) count
          (ap (drop 4) bytes ∙ drop-length-append head tail 4 (sym four)))

  all_bytes-inside :
      (n : ℕ) (pack : Pack) (es : List (Entry Addr Md))
      → pack.data_bytes ≡ host.bytes_of (host.htonl n) ++ all_bytes layout es
      → pack.d_size ≡ length pack.data_bytes
      → length (all_bytes layout es) ≤ pack.d_size
  all_bytes-inside n pack es bytes whole = omega (
    arith,
    whole,
    ap length bytes,
    length-append (host.bytes_of (host.htonl n)) (all_bytes layout es),
  )

  -- Entries that are put into a packet and taken out of it are all heard of, in their order.
  pub from_packet-to_data :
      (g : Gossip Addr Md) (pack : Pack) (e : Entry Addr Md) (es : List (Entry Addr Md))
      → length (e ∷ es) < u32_mod
      → to_data host layout true (e ∷ es) ≡ some pack.data_bytes
      → pack.d_size ≡ length pack.data_bytes
      → from_packet host layout g pack ≡ stored (heard g (e ∷ es))
  unfolding to_data take_entries content
  from_packet-to_data g pack e es small made whole =
      let n : ℕ = length (e ∷ es) in
      let bytes : pack.data_bytes ≡ host.bytes_of (host.htonl n) ++ all_bytes layout (e ∷ es) =
        sym (ap content made)
        ∙ ap (λ m. host.bytes_of (host.htonl m) ++ all_bytes layout (e ∷ es))
            (omega (arith, small)) in
      from_packet-rounds g n pack e es small bytes whole
      ∙ take_entries-all_bytes n 0 pack.d_size [] (e ∷ es) g (omega arith)
          (all_bytes-inside n pack (e ∷ es) bytes whole)

  -- A packet that announces more entries than it has is read past its end.
  pub from_packet-overread :
      (g : Gossip Addr Md) (n : ℕ) (pack : Pack) (e : Entry Addr Md) (es : List (Entry Addr Md))
      → 0 < layout.size
      → n < u32_mod
      → length (e ∷ es) < n
      → pack.data_bytes ≡ host.bytes_of (host.htonl n) ++ all_bytes layout (e ∷ es)
      → pack.d_size ≡ length pack.data_bytes
      → from_packet host layout g pack ≡ overread
  unfolding take_entries
  from_packet-overread g n pack e es big small more bytes whole =
      let k : ℕ = n - length (e ∷ es) - 1 in
      let all : List ℕ = all_bytes layout (e ∷ es) in
      from_packet-rounds g n pack e es small bytes whole
      ∙ take_entries-all_bytes n (suc k) pack.d_size [] (e ∷ es) g (omega (arith, more))
          (all_bytes-inside n pack (e ∷ es) bytes whole)
      ∙ rw (take_entries, lt→ltb (length all) (length all + layout.size) (omega (arith, big))) refl
