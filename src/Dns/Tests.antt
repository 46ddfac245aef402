-- ===== src/Dns/Tests.antt =====
-- Runs of the wire format.
use bunmail.Prelude.{◌/◌, ◌%◌, ◌≡◌, refl, true, List, [], ◌∷◌, some, arith}
use bunmail.Dns.Bytes.{Bytes, u16, ascii_lower}
use bunmail.Dns.Query.{TxtQuestion, encode_query}
use bunmail.Dns.Name.{ReadName, ok, name_labels, read_name}
use bunmail.Dns.Name.Fuel.{IsRead, read_name-IsRead}
use bunmail.Dns.Name.Labels.{read_name-encode_query}
use bunmail.Dns.Response.{TxtResponseOutcome, parse_txt_response, records}
use bunmail.Dns.Response.Whole.{put_answer, parse_txt_response-put_answer}
use bunmail.Dns.Response.Ours.{Echoes, parse_txt_response-Echoes}
use bunmail.Dns.Response.Total.{parse_txt_response-Decided}

-- "A.bc", its labels, and a message whose name at byte 12 points to itself.
abbrev host : Bytes
host = 65 ∷ 46 ∷ 98 ∷ 99 ∷ []

abbrev host_labels : List Bytes
host_labels = (97 ∷ []) ∷ (98 ∷ 99 ∷ []) ∷ []

abbrev looping : Bytes
looping = 0 ∷ 7 ∷ 0x81 ∷ 0x80 ∷ 0 ∷ 1 ∷ 0 ∷ 1 ∷ 0 ∷ 0 ∷ 0 ∷ 0 ∷ 0xc0 ∷ 0x0c ∷ []

name_labels-host : name_labels host ≡ some host_labels
unfolding name_labels ascii_lower
name_labels-host = refl

read_name-IsRead_example : IsRead looping (read_name looping 12)
read_name-IsRead_example = read_name-IsRead looping 12

read_name-encode_query_example :
    read_name (encode_query (record { id = 7; labels = host_labels }) true) 12
    ≡ ok (record { labels = host_labels; next = 18 })
read_name-encode_query_example = read_name-encode_query host host_labels 7 true name_labels-host

parse_txt_response-Decided_example :
    (outcome : TxtResponseOutcome) × (parse_txt_response looping
        (record { id = 7; labels = host_labels })
      ≡ ok outcome)
parse_txt_response-Decided_example =
    parse_txt_response-Decided looping (record { id = 7; labels = host_labels })

-- Two records, the first of two strings.
abbrev texts : List (List Bytes)
texts = ((118 ∷ []) ∷ [] ∷ []) ∷ ((119 ∷ 120 ∷ []) ∷ []) ∷ []

abbrev host_question : TxtQuestion
host_question = record { id = 7; labels = host_labels }

parse_txt_response-put_answer_example :
    parse_txt_response (put_answer host_question 300 texts) host_question ≡ ok (records texts)
parse_txt_response-put_answer_example =
    parse_txt_response-put_answer host host_labels 7 300 texts name_labels-host (omega arith)
      (
        omega arith,
        (omega arith, (omega arith, tt)),
        omega arith,
        (omega arith, (omega arith, tt), omega arith, tt),
      )
      (omega arith) (omega arith)

parse_txt_response-Echoes_example :
    let m = put_answer host_question 300 texts in
    (u16 m 0 ≡ 7)
    × (u16 m 2 / 32768 % 2 ≡ 1)
    × (u16 m 2 / 2048 % 16 ≡ 0)
    × (u16 m 2 / 512 % 2 ≡ 0)
    × (u16 m 4 ≡ 1)
    × ((asked : ReadName) × Echoes m host_question asked)
parse_txt_response-Echoes_example =
    parse_txt_response-Echoes (put_answer host_question 300 texts) host_question texts (
      parse_txt_response-put_answer host host_labels 7 300 texts name_labels-host (omega arith)
        (
          omega arith,
          (omega arith, (omega arith, tt)),
          omega arith,
          (omega arith, (omega arith, tt), omega arith, tt),
        )
        (omega arith) (omega arith))
