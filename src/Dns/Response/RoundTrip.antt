-- ===== src/Dns/Response/RoundTrip.antt =====
-- An answer that is written is read back.
use bunmail.Prelude.{
  ℕ, suc, ◌+◌, ◌≤◌, ◌<◌, ◌≡◌, refl, sym, ap, ◌∙◌, true, List, [], ◌∷◌, ◌++◌, length, length-append,
  false, ltb, if◌then◌else◌, arith,
}
use mathlib.Core.List.{append_assoc, append-nil}
use bunmail.Dns.Bytes.{Bytes, u16, bytes_eq_refl}
use bunmail.Dns.Query.{TxtQuestion, put_labels}
use bunmail.Dns.Name.{ok, range_error, ◌>>=◌}
use bunmail.Dns.Name.Fuel.{wire_of}
use bunmail.Dns.Name.RoundTrip.{Readable}
use bunmail.Dns.Response.{
  ResourceRecord, Sections, read_record, take_record, read_records, targets_of, walk, chain_owners,
  same_name, collect, found, answer, read_counted, read_sections, max_cname_links, records,
}
use bunmail.Dns.Response.Answer.{
  put_strings, put_record, put_records, Sendable, row_at, read_record-put_record,
  txt_strings-put_record,
}

pub same_name_refl : (name : List Bytes) → same_name name name ≡ true
same_name_refl [] = refl
same_name_refl (l ∷ ls) = ground (arith, bytes_eq_refl l, same_name_refl ls)

abbrev no_bytes : Bytes
no_bytes = []

-- The place after a record.
past_record :
    (pre rest : Bytes) (ttl : ℕ) (ss : List Bytes)
    → (pre ++ put_record ttl ss rest ≡ (pre ++ put_record ttl ss []) ++ rest)
      × (length (pre ++ put_record ttl ss []) ≡ length pre + 12 + length (put_strings ss))
past_record pre rest ttl ss = (
  ap (◌++◌ pre) (ground (arith, append-nil (put_strings ss)))
      ∙ sym (append_assoc pre (put_record ttl ss []) rest),
  omega (arith, length-append pre (put_record ttl ss []), length-append (put_strings ss) no_bytes),
)

module _ (m header qrest : Bytes) (labels : List Bytes)
    (asked : m ≡ header ++ (put_labels labels ++ qrest)) (header_size : length header ≡ 12)
    (readable : Readable labels) (short : wire_of labels ≤ 254)
    (few : length labels ≤ wire_of labels) (ttl : ℕ) where
  -- The records, written one after the other from `at` on, as they are read.
  rows_at : List (List Bytes) → ℕ → List ResourceRecord
  rows_at [] at = []
  rows_at (ss ∷ rs) at =
      row_at m header qrest labels asked header_size readable short few ttl ss at
      ∷ rows_at rs (at + 12 + length (put_strings ss))

  read_records-put_records :
      (rs : List (List Bytes)) (pre : Bytes) (i count : ℕ) (s : Sections)
      → m ≡ pre ++ put_records ttl rs
      → s.at ≡ length pre
      → 12 < length pre
      → Sendable rs
      → i + length rs ≡ count
      → (s' : Sections) × (read_records (length rs) m count count i s ≡ ok s')
        × (s'.answers ≡ s.answers ++ rows_at rs (length pre))
        × (s'.rcode ≡ s.rcode)
  unfolding read_records rows_at
  read_records-put_records [] pre i count s e here far sendable left =
      (s, refl, sym (append-nil s.answers), refl)
  read_records-put_records (ss ∷ rs) pre i count s e here far (some_one, strings, fits, sendable)
        left =
      let pre' = pre ++ put_record ttl ss [] in
      let (split, at') = past_record pre (put_records ttl rs) ttl ss in
      let row =
        row_at m header qrest labels asked header_size readable short few ttl ss (length pre) in
      let read =
        read_record-put_record m header qrest labels asked header_size readable short few pre
          (put_records ttl rs) ttl ss e far fits in
      let s' : Sections = record s { at = row.rdata_end; answers = s.answers ++ (row ∷ []) } in
      let loop = read_records (length rs) m count count (suc i) in
      let taken : take_record count count i s row ≡ ok s' = ground arith in
      let (last, done, answers, rcode) =
        read_records-put_records rs pre' (suc i) count s' (e ∙ split) (sym at') (omega arith)
          sendable (omega arith) in
      (
        last,
        ap (λ x. (read_record m x >>= (λ r. take_record count count i s r)) >>= loop) here
            ∙ ap (λ x. (x >>= (λ r. take_record count count i s r)) >>= loop) read
            ∙ ap (λ x. x >>= loop) taken
            ∙ done,
        answers
            ∙ ap (λ x. (s.answers ++ (row ∷ [])) ++ rows_at rs x) at'
            ∙ append_assoc s.answers (row ∷ [])
                (rows_at rs (length pre + 12 + length (put_strings ss))),
        rcode,
      )

  collect-rows :
      (rs : List (List Bytes)) (pre : Bytes)
      → m ≡ pre ++ put_records ttl rs
      → 12 < length pre
      → Sendable rs
      → collect m (labels ∷ []) (rows_at rs (length pre)) ≡ ok rs
  unfolding collect rows_at
  collect-rows [] pre e far sendable = refl
  collect-rows (ss ∷ rs) pre e far (some_one, strings, fits, sendable) =
      let pre' = pre ++ put_record ttl ss [] in
      let (split, at') = past_record pre (put_records ttl rs) ttl ss in
      let rest = collect-rows rs pre' (e ∙ split) (omega arith) sendable in
      let text =
        txt_strings-put_record m header qrest labels asked header_size readable short few pre
          (put_records ttl rs) ttl ss e far fits some_one in
      ground (arith, text, rw at' at rest, same_name_refl labels)

  targets_of-rows : (rs : List (List Bytes)) (at : ℕ) → targets_of m (rows_at rs at) [] ≡ ok []
  unfolding targets_of rows_at
  targets_of-rows [] at = refl
  targets_of-rows (ss ∷ rs) at = targets_of-rows rs (at + 12 + length (put_strings ss))

  found-some : (rs : List (List Bytes)) → 1 ≤ length rs → found rs ≡ ok (records rs)
  found-some [] h = absurd (omega arith)
  found-some (ss ∷ rs) h = refl

  chain_owners-rows :
      (rs : List (List Bytes)) (at : ℕ) → chain_owners m (rows_at rs at) labels ≡ ok (labels ∷ [])
  unfolding chain_owners walk
  chain_owners-rows rs at =
      ap (λ x. x >>= λ ts. walk max_cname_links ts labels (labels ∷ [])) (targets_of-rows rs at)

  answer-rows :
      (rs : List (List Bytes)) (pre : Bytes) (id : ℕ) (s : Sections)
      → m ≡ pre ++ put_records ttl rs
      → 12 < length pre
      → Sendable rs
      → 1 ≤ length rs
      → s.answers ≡ rows_at rs (length pre)
      → s.rcode ≡ 0
      → answer m (record { id = id; labels = labels }) s ≡ ok (records rs)
  answer-rows rs pre id s e far sendable some_one answers rcode = ground (
    arith,
    chain_owners-rows rs (length pre),
    collect-rows rs pre e far sendable,
    found-some rs some_one,
  )

  pub read_sections-rows :
      (rs : List (List Bytes)) (pre : Bytes) (id : ℕ)
      → m ≡ pre ++ put_records ttl rs
      → 12 < length pre
      → Sendable rs
      → 1 ≤ length rs
      → u16 m 6 ≡ length rs
      → u16 m 8 ≡ 0
      → u16 m 10 ≡ 0
      → read_sections m (length pre) 0 (record { id = id; labels = labels }) ≡ ok (records rs)
  unfolding read_sections read_counted
  read_sections-rows rs pre id e far sendable some_one answers_are none_next none_last =
      let question : TxtQuestion = record { id = id; labels = labels } in
      let s : Sections = record { at = length pre; answers = []; opt_records = 0; rcode = 0 } in
      let n = length rs in
      let (s', done, answers, rcode) =
        read_records-put_records rs pre 0 n s e refl far sendable (omega arith) in
      let inside : ltb (length m) 12 ≡ false =
        ground (arith, ap length e, length-append pre (put_records ttl rs)) in
      let counts : read_sections m (length pre) 0 question
          ≡ read_counted n 0 0 m (length pre) 0 question =
        (λ i.
          if inside i
          then range_error
          else read_counted (u16 m 6) (u16 m 8) (u16 m 10) m (length pre) 0 question)
        ∙ λ i. read_counted (answers_are i) (none_next i) (none_last i) m (length pre) 0 question in
      let all_of_them : n + 0 + 0 ≡ n = omega arith in
      let none_after : n + 0 ≡ n = omega arith in
      counts
      ∙ (λ i. read_records (all_of_them i) m n (none_after i) 0 s >>= answer m question)
      ∙ ap (λ x. x >>= answer m question) done
      ∙ answer-rows rs pre id s' e far sendable some_one answers rcode
