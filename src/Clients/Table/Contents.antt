-- ===== src/Clients/Table/Contents.antt =====
-- The rows of the file and the table that `Clients::parse` of src/clients.rs builds.
use macmapd.Base.{
  ℕ, ◌+◌, ◌≡◌, ◌≢◌, inl, inr, refl, ap, sym, ◌∙◌, Bool, true, false, not, Option, none, some, List,
  [], ◌∷◌, ◌++◌, map, Bytes, Result, ok, err, panic, stuck, map_err, arith, append_assoc,
  append-nil,
}
use mathlib.Core.Path.{subst}
use macmapd.Base.Ensures.{
  Ensures, Ensures-ok, Ensures-err, Ensures-ensure, Ensures-bind, Ensures-if,
}
use macmapd.Base.Map.{
  Map, get, insert, insert_new, get-none, get-insert_self, get-insert_ne, insert_cases,
}
use macmapd.Net.{Ipv4Addr}
use macmapd.Clients.{Client, Clients, bytes_Eq, ip_Eq}
use macmapd.Clients.Row.{parse_client}
use macmapd.Clients.Row.Shape.{IsClient}
use macmapd.Clients.Row.Accepts.{parse_client-IsClient}
use macmapd.Clients.Table.{
  Row, add_client, add_row, is_header, line_of, csv_line, csv_record, parse_rows, no_clients, parse,
}

-- The two maps describe one set of clients: they point at each other, and every client is well
-- formed.
pub record IsConsistent (cs : Clients) : Type 0 where
  pub by_mac :
      (mac : Bytes) (c : Client)
      → get cs.records mac ≡ some c
      → (c.mac ≡ mac) × IsClient c × (get cs.by_ip c.ip ≡ some mac)
  pub by_addr :
      (ip : Ipv4Addr) (mac : Bytes)
      → get cs.by_ip ip ≡ some mac
      → (c : Client) × (get cs.records mac ≡ some c) × (c.ip ≡ ip)

not-false : (b : Bool) → not b ≡ true → b ≡ false
not-false b h = ground arith

apart : {A B : Type 0} (f : A → Option B) {x y : A} {b : B} → f x ≡ none → f y ≡ some b → x ≢ y
apart f n s e = cc (ap f e)

-- One more client whose MAC and address are new.
module _ (c : Client) (cs : Clients) (hc : IsClient c) (h : IsConsistent cs)
    (new_mac : get cs.records c.mac ≡ none) (new_ip : get cs.by_ip c.ip ≡ none) where
  by_mac_grows :
      (mac : Bytes) (d : Client)
      → get (insert c.mac c cs.records) mac ≡ some d
      → (d.mac ≡ mac) × IsClient d × (get (insert c.ip c.mac cs.by_ip) d.ip ≡ some mac)
  by_mac_grows mac d e = elim (insert_cases c.mac mac c cs.records e) [
    | inl (em, ed) ↦
        subst (λ x. (x.mac ≡ mac) × IsClient x × (get (insert c.ip c.mac cs.by_ip) x.ip ≡ some mac))
          ed (em, hc, get-insert_self c.ip c.mac cs.by_ip ∙ ap some em)
    | inr (ne, e') ↦
        let (dm, cd, g) = h.by_mac mac d e' in
        (dm, cd, get-insert_ne c.ip d.ip c.mac cs.by_ip (apart (get cs.by_ip) new_ip g) ∙ g)
  ]

  by_addr_grows :
      (ip : Ipv4Addr) (mac : Bytes)
      → get (insert c.ip c.mac cs.by_ip) ip ≡ some mac
      → (d : Client) × (get (insert c.mac c cs.records) mac ≡ some d) × (d.ip ≡ ip)
  by_addr_grows ip mac e = elim (insert_cases c.ip ip c.mac cs.by_ip e) [
    | inl (ei, em) ↦
        (c, ap (get (insert c.mac c cs.records)) (sym em) ∙ get-insert_self c.mac c cs.records, ei)
    | inr (ne, e') ↦
        let (d, g, di) = h.by_addr ip mac e' in
        (d, get-insert_ne c.mac mac c cs.records (apart (get cs.records) new_mac g) ∙ g, di)
  ]

-- What `add_client` does to the two maps.
record Adds (c : Client) (cs next : Clients) : Type 0 where
  records : next.records ≡ cs.records ++ ((c.mac, c) ∷ [])
  by_ip : next.by_ip ≡ cs.by_ip ++ ((c.ip, c.mac) ∷ [])

add_client-Ensures :
    (line : ℕ) (c : Client) (cs : Clients)
    → IsClient c
    → IsConsistent cs
    → Ensures (λ next. IsConsistent next × Adds c cs next) (add_client line c cs)
unfolding add_client
add_client-Ensures line c cs hc h = Ensures-ensure _ _ _ λ new_mac. Ensures-ensure _ _ _ λ new_ip.
    let no_mac = get-none cs.records c.mac (not-false _ new_mac) in
    let no_ip = get-none cs.by_ip c.ip (not-false _ new_ip) in
    Ensures-ok (
      record {
        by_mac = by_mac_grows c cs hc h no_mac no_ip;
        by_addr = by_addr_grows c cs hc h no_mac no_ip;
      },
      record {
        records = insert_new c.mac c cs.records (not-false _ new_mac);
        by_ip = insert_new c.ip c.mac cs.by_ip (not-false _ new_ip);
      },
    )

-- The clients of the rows in order: a header at the very first place counts for nothing, and
-- every other row is one that `parse_client` reads.
pub data Reads : ℕ → List (Option Row) → List Client → Type 0 where
  done : (index : ℕ) → Reads index [] []
  skip :
      {index : ℕ} {row : Row} {rows : List (Option Row)} {l : List Client}
      → is_header index row ≡ true
      → Reads (index + 1) rows l
      → Reads index (some row ∷ rows) l
  read :
      {index : ℕ} {row : Row} {c : Client} {rows : List (Option Row)} {l : List Client}
      → is_header index row ≡ false
      → parse_client row.fields ≡ ok c
      → Reads (index + 1) rows l
      → Reads index (some row ∷ rows) (c ∷ l)

abbrev pub mac_entries : List Client → Map Bytes Client
mac_entries = map (λ c. (c.mac, c))

abbrev pub ip_entries : List Client → Map Ipv4Addr Bytes
ip_entries = map (λ c. (c.ip, c.mac))

-- The table holds what it held, then the clients of the rows in order.
pub record Holds (cs : Clients) (index : ℕ) (rows : List (Option Row)) (next : Clients)
    : Type 0 where
  pub consistent : IsConsistent next
  pub clients : List Client
  pub reads : Reads index rows clients
  pub records : next.records ≡ cs.records ++ mac_entries clients
  pub by_ip : next.by_ip ≡ cs.by_ip ++ ip_entries clients

pub map_err-eq-ok :
    {E F A : Type 0} (f : E → F) (r : Result E A) {a : A} → map_err f r ≡ ok a → r ≡ ok a
unfolding map_err
map_err-eq-ok f (ok x) e = cc
map_err-eq-ok f (err x) e = cc
map_err-eq-ok f panic e = cc
map_err-eq-ok f stuck e = cc

-- One row is the header, or adds its client.
data RowStep (index : ℕ) (row : Row) (cs next : Clients) : Type 0 where
  header_row : is_header index row ≡ true → next ≡ cs → RowStep index row cs next
  client_row :
      (c : Client)
      → is_header index row ≡ false
      → parse_client row.fields ≡ ok c
      → IsConsistent next
      → Adds c cs next
      → RowStep index row cs next

add_row-Ensures :
    (index : ℕ) (row : Row) (cs : Clients)
    → IsConsistent cs
    → Ensures (RowStep index row cs) (add_row index row cs)
unfolding add_row
add_row-Ensures index row cs h =
    Ensures-if (is_header index row) _ _ (λ t. Ensures-ok (header_row t refl))
      λ f.
        Ensures-bind (map_err (csv_line (line_of index row.position)) (parse_client row.fields)) _
          λ c e.
            let e' = map_err-eq-ok _ (parse_client row.fields) e in
            record {
              at = λ next eq.
                  let (k, adds) =
                    (add_client-Ensures _ c cs (parse_client-IsClient row.fields c e') h).at next
                      eq in
                  client_row c f e' k adds;
            }

Holds-row :
    (index : ℕ) (row : Row) (rows : List (Option Row)) (cs next last : Clients)
    → RowStep index row cs next
    → Holds next (index + 1) rows last
    → Holds cs index (some row ∷ rows) last
Holds-row index row rows cs next last (header_row t e) h = record {
  consistent = h.consistent;
  clients = h.clients;
  reads = skip t h.reads;
  records = h.records ∙ ap (λ (x : Clients). x.records ++ mac_entries h.clients) e;
  by_ip = h.by_ip ∙ ap (λ (x : Clients). x.by_ip ++ ip_entries h.clients) e;
}
Holds-row index row rows cs next last (client_row c f e k adds) h = record {
  consistent = h.consistent;
  clients = c ∷ h.clients;
  reads = read f e h.reads;
  records =
      h.records
      ∙ ap (λ (x : Map Bytes Client). x ++ mac_entries h.clients) adds.records
      ∙ append_assoc cs.records ((c.mac, c) ∷ []) (mac_entries h.clients);
  by_ip =
      h.by_ip
      ∙ ap (λ (x : Map Ipv4Addr Bytes). x ++ ip_entries h.clients) adds.by_ip
      ∙ append_assoc cs.by_ip ((c.ip, c.mac) ∷ []) (ip_entries h.clients);
}

parse_rows-Ensures :
    (index : ℕ) (cs : Clients) (rows : List (Option Row))
    → IsConsistent cs
    → Ensures (Holds cs index rows) (parse_rows index cs rows)
unfolding parse_rows
parse_rows-Ensures index cs [] h = Ensures-ok (record {
  consistent = h;
  clients = [];
  reads = done index;
  records = sym (append-nil cs.records);
  by_ip = sym (append-nil cs.by_ip);
})
parse_rows-Ensures index cs (none ∷ rows) h = Ensures-err (csv_record (index + 1))
parse_rows-Ensures index cs (some row ∷ rows) h = Ensures-bind (add_row index row cs) _ λ next e.
    let row1 = (add_row-Ensures index row cs h).at next e in
    record {
      at = λ last eq. Holds-row index row rows cs next last row1 (
          (parse_rows-Ensures (index + 1) next rows (consistent index row cs next h row1)).at last
            eq);
    }
  where
    consistent :
        (index : ℕ) (row : Row) (cs next : Clients)
        → IsConsistent cs
        → RowStep index row cs next
        → IsConsistent next
    consistent index row cs next h (header_row t e) = subst IsConsistent (sym e) h
    consistent index row cs next h (client_row c f e k adds) = k

no_clients-IsConsistent : IsConsistent no_clients
unfolding get
no_clients-IsConsistent = record { by_mac = λ mac c e. cc; by_addr = λ ip mac e. cc }

module _ (read_csv : Bytes → List (Option Row)) where
  -- A table that is returned is exactly its rows: `records` and `by_ip` list, in order, the clients
  -- of all rows but a leading header, each row having parsed, and the table is consistent.
  pub parse-Holds :
      (text : Bytes) (cs : Clients)
      → parse read_csv text ≡ ok cs
      → Holds no_clients 0 (read_csv text) cs
  unfolding parse
  parse-Holds text = (parse_rows-Ensures 0 no_clients (read_csv text) no_clients-IsConsistent).at
