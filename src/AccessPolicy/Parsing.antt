-- ===== src/AccessPolicy/Parsing.antt =====
-- What Parse accepts: the loop over the mappings against a declarative reading of the document.
use showroom_msp_chat_ui.Prelude.{
  ◌≤◌, String, ◌≡◌, refl, ap, ◌∙◌, ◌≢◌, ◌↔◌, true, false, ◌||◌, not, Option, some, List, [], ◌∷◌,
  arith, eq_iff, All, Pairwise,
}
use Prim.Native.String.{len}
use showroom_msp_chat_ui.Errors.{Result, ok, err, >>=-eq-ok, fail_if}
use showroom_msp_chat_ui.HostnamePolicy.{Validation, mem}
use showroom_msp_chat_ui.AccessPolicy.{
  Entry, Policy, Url, Decoder, Seen, decode, https_url, is_pinned, local_key, source_key,
  validate_entry, check_entry, check_entries, parse,
}

-- Two mappings that a policy may hold together.
pub record Differ (a b : Entry) : Type 0 where
  pub uid : a.uid ≢ b.uid
  pub local : local_key a ≢ local_key b
  pub source : source_key a ≢ source_key b

record Fresh (seen : Seen) (e : Entry) : Type 0 where
  uid : mem e.uid seen.uids ≡ false
  local : mem (local_key e) seen.local ≡ false
  source : mem (source_key e) seen.sources ≡ false

add : Entry → Seen → Seen
add e seen = record {
  uids = e.uid ∷ seen.uids;
  local = local_key e ∷ seen.local;
  sources = source_key e ∷ seen.sources;
}

add_all : List Entry → Seen → Seen
add_all [] seen = seen
add_all (e ∷ es) seen = add_all es (add e seen)

Fresh-add_iff : (e x : Entry) (seen : Seen) → Fresh (add e seen) x ↔ (Fresh seen x × Differ e x)
unfolding add
Fresh-add_iff e x seen =
    let u = eq_iff e.uid x.uid in
    let l = eq_iff (local_key e) (local_key x) in
    let s = eq_iff (source_key e) (source_key x) in
    (
      λ f. (
        record {
          uid = ground (arith, f.uid);
          local = ground (arith, f.local);
          source = ground (arith, f.source);
        },
        record {
          uid = ground (arith, f.uid);
          local = ground (arith, f.local);
          source = ground (arith, f.source);
        },
      ),
      λ (f, d). record {
        uid = ground (arith, f.uid, d.uid);
        local = ground (arith, f.local, d.local);
        source = ground (arith, f.source, d.source);
      },
    )

All-Fresh-add :
    (e : Entry) (es : List Entry) (seen : Seen)
    → All (Fresh (add e seen)) es ↔ (All (Fresh seen) es × All (Differ e) es)
All-Fresh-add e [] seen = (λ _. (tt, tt), λ _. tt)
All-Fresh-add e (x ∷ es) seen =
    let (f, g) = Fresh-add_iff e x seen in
    let (fs, gs) = All-Fresh-add e es seen in
    (
      λ (h, hs). (((f h).0, (fs hs).0), ((f h).1, (fs hs).1)),
      λ (h, k). (g (h.0, k.0), gs (h.1, k.1)),
    )

module _ (v : Validation) (parse_url : String → Option Url) where
  abbrev pub IsValid : Entry → Type 0
  IsValid e = validate_entry v parse_url e ≡ ok tt

  check_entry_iff :
      (e : Entry) (seen seen' : Seen)
      → (check_entry v parse_url e seen ≡ ok seen')
        ↔ (IsValid e × Fresh seen e × (seen' ≡ add e seen))
  unfolding check_entry add
  check_entry_iff e seen seen' = ground arith

  check_entries_iff :
      (es : List Entry) (seen seen' : Seen)
      → (check_entries v parse_url es seen ≡ ok seen')
        ↔ (All IsValid es × All (Fresh seen) es × Pairwise Differ es × (seen' ≡ add_all es seen))
  unfolding check_entries add_all
  check_entries_iff [] seen seen' = ground arith
  check_entries_iff (e ∷ es) seen seen' = (
    λ h.
        let (m, one, more) =
          >>=-eq-ok (check_entry v parse_url e seen) (check_entries v parse_url es) h in
        let (valid, fresh, same) = (check_entry_iff e seen m).0 one in
        let (valids, news, apart, rest) = (check_entries_iff es m seen').0 more in
        let (old, differ) = (All-Fresh-add e es seen).0 (rw same at news) in
        ((valid, valids), (fresh, old), (differ, apart), rest ∙ ap (add_all es) same),
    λ h.
        let ((valid, valids), (fresh, old), (differ, apart), rest) = h in
        let news = (All-Fresh-add e es seen).1 (old, differ) in
        rw ((check_entry_iff e seen (add e seen)).1 (valid, fresh, refl))
          ((check_entries_iff es (add e seen) seen').1 (valids, news, apart, rest)),
  )

  abbrev nothing_seen : Seen
  nothing_seen = record { uids = []; local = []; sources = [] }

  Fresh-nothing_seen : (es : List Entry) → All (Fresh nothing_seen) es
  Fresh-nothing_seen [] = tt
  Fresh-nothing_seen (e ∷ es) =
      (record { uid = refl; local = refl; source = refl }, Fresh-nothing_seen es)

  loop_iff :
      (es : List Entry)
      → ((seen : Seen) × (check_entries v parse_url es nothing_seen ≡ ok seen))
        ↔ (All IsValid es × Pairwise Differ es)
  loop_iff es = (
    λ (seen, h).
        let (valid, _, apart, _) = (check_entries_iff es nothing_seen seen).0 h in (valid, apart),
    λ (valid, apart). (
      add_all es nothing_seen,
      (check_entries_iff es nothing_seen (add_all es nothing_seen)).1
          (valid, Fresh-nothing_seen es, apart, refl),
    ),
  )

  -- What a document must be to give the policy `p`.
  pub record IsAccepted (decoder : Decoder Policy) (read : Result String) (p : Policy)
      : Type 0 where
    pub text : String
    pub was_read : read ≡ ok text
    pub size : len text ≤ 1048576
    pub decoded : decoder.first text ≡ some p
    pub single : decoder.is_single text ≡ true
    pub server : https_url parse_url p.kcp_server true ≡ ok tt
    pub namespace : v.is_label p.credentials_namespace ≡ true
    pub pinned : is_pinned p.proxy_image ≡ true
    pub valid : All IsValid p.entries
    pub apart : Pairwise Differ p.entries

  decode_iff :
      (decoder : Decoder Policy) (text : String) (p : Policy)
      → (decode decoder (ok text) ≡ ok p)
        ↔ ((len text ≤ 1048576) × (decoder.first text ≡ some p) × (decoder.is_single text ≡ true))
  unfolding decode
  decode_iff decoder text p = ground arith

  parse_sound :
      (decoder : Decoder Policy) (read : Result String) (p : Policy)
      → parse v parse_url decoder read ≡ ok p
      → IsAccepted decoder read p
  unfolding parse
  parse_sound decoder (err e) p h = cc
  parse_sound decoder (ok text) p h =
      let (q, decoded, h1) = >>=-eq-ok (decode decoder (ok text)) _ h in
      let (size, first, single) = (decode_iff decoder text q).0 decoded in
      let (_, server, h2) = >>=-eq-ok (https_url parse_url q.kcp_server true) _ h1 in
      let (_, fixed, h3) =
        >>=-eq-ok
          (fail_if (not (v.is_label q.credentials_namespace) || not (is_pinned q.proxy_image)) _) _
          h2 in
      let (seen, checked, h4) = >>=-eq-ok (check_entries v parse_url q.entries nothing_seen) _ h3 in
      let same : q ≡ p = ground arith in
      let (valid, apart) = (loop_iff q.entries).0 (seen, checked) in
      rw (← same) (record {
        text = text;
        was_read = refl;
        size = size;
        decoded = first;
        single = single;
        server = server;
        namespace = ground arith;
        pinned = ground arith;
        valid = valid;
        apart = apart;
      })

  parse_complete :
      (decoder : Decoder Policy) (read : Result String) (p : Policy)
      → IsAccepted decoder read p
      → parse v parse_url decoder read ≡ ok p
  unfolding parse
  parse_complete decoder read p a =
      let (seen, checked) = (loop_iff p.entries).1 (a.valid, a.apart) in
      rw (
        a.was_read,
        (decode_iff decoder a.text p).1 (a.size, a.decoded, a.single),
        a.server,
        a.namespace,
        a.pinned,
        checked,
      )

  -- Parse gives the policy `p` exactly for a document that could be read, is at most 1 MiB long and
  -- a single JSON document for `p`, where the KCP server is an explicit HTTPS origin, the credential
  -- namespace a DNS label, the proxy image pinned by digest, and the mappings are each valid and
  -- differ pairwise in UID, in namespace/name and in cluster/namespace/name of the source.
  pub parse_access_iff :
      (decoder : Decoder Policy) (read : Result String) (p : Policy)
      → (parse v parse_url decoder read ≡ ok p) ↔ IsAccepted decoder read p
  parse_access_iff decoder read p = (parse_sound decoder read p, parse_complete decoder read p)
