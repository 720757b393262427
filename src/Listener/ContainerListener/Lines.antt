-- ===== src/Listener/ContainerListener/Lines.antt =====
-- What the record of a line holds, by
-- packages/log-sump-listener/src/log_sump_listener/container_listener.py.
use log_sump.Base.{
  ℕ, ◌≡◌, refl, ap, ◌∙◌, false, Option, none, some, [], ◌∷◌, ◌++◌, if◌then◌else◌, nat_eq, All,
  arith,
}
use log_sump.Base.Int.{pos}
use log_sump.Base.Text.{Text, codes, text_discrete, ◌==◌, ==_refl}
use log_sump.Base.Dict.{Dict, lookup, erase, lookup-erase, lookup-nil}
use log_sump.Common.Schema.{Json, DateTime, LogRecord, StreamName}
use log_sump.Common.Transport.{StreamLine}
use log_sump.Listener.ContainerListener.{
  Library, default_level, partition_space, replace_z, content, record_of, try_parse_json_object,
  dated, parse_line,
}

partition_space-append :
    (before after : Text)
    → All (λ c. nat_eq c b' ' ≡ false) before
    → partition_space (before ++ (b' ' ∷ after)) ≡ (before, after)
unfolding partition_space
partition_space-append [] after h = refl
partition_space-append (c ∷ before) after (h, hs) =
    ground (arith, h, partition_space-append before after hs)

level_ne_message : (codes "level" == codes "message") ≡ false
unfolding text_discrete
level_ne_message = refl

erase-same : (k : Text) (d : Dict Json) → lookup k (erase k d) ≡ none
erase-same k d = ground (arith, lookup-erase k k d, ==_refl k)

erase-still-none : (k j : Text) (d : Dict Json) → lookup k d ≡ none → lookup k (erase j d) ≡ none
erase-still-none k j d h = ground (arith, lookup-erase j k d, h)

module _ (lib : Library) where
  content-level :
      (payload : Text) (o : Option (Dict Json))
      → lookup (codes "level") (content lib payload o).2 ≡ none
  content-level payload none = lookup-nil _
  content-level payload (some fields) = erase-same (codes "level") (erase (codes "message") fields)

  content-message :
      (payload : Text) (o : Option (Dict Json))
      → lookup (codes "message") (content lib payload o).2 ≡ none
  content-message payload none = lookup-nil _
  content-message payload (some fields) =
      erase-still-none (codes "message") (codes "level") (erase (codes "message") fields)
        (erase-same (codes "message") fields)

  -- The text under a key of the payload's object, or the default.
  abbrev pub given : Text → Text → Option (Dict Json) → Text
  given key default none = default
  given key default (some fields) = elim (lookup key fields) [
    | none ↦ default
    | some v ↦ lib.show v
  ]

  content-given-level :
      (payload : Text) (o : Option (Dict Json))
      → (content lib payload o).0 ≡ given (codes "level") default_level o
  content-given-level payload none = refl
  content-given-level payload (some fields) =
      ap (λ x. elim x [ none ↦ default_level | some v ↦ lib.show v ])
        (lookup-erase (codes "message") (codes "level") fields
          ∙ ap (λ b. if b then none else lookup (codes "level") fields) level_ne_message)

  content-given-message :
      (payload : Text) (o : Option (Dict Json))
      → (content lib payload o).1 ≡ given (codes "message") payload o
  content-given-message payload none = refl
  content-given-message payload (some fields) = refl

  -- The record of a line at a time: the whole line as `raw`, the level and the message of its payload,
  -- and neither of them again among the fields.
  pub record IsRecordOf (line : StreamLine) (payload : Text) (ts : DateTime) (seq : ℕ)
      (r : LogRecord) : Type 0 where
    pub raw : r.raw ≡ line.text
    pub stream : r.stream ≡ line.stream
    pub time : r.base.ts ≡ ts
    pub number : r.base.seq ≡ pos seq
    pub level : r.level ≡ given (codes "level") default_level (try_parse_json_object lib payload)
    pub message : r.message ≡ given (codes "message") payload (try_parse_json_object lib payload)
    pub no_level : lookup (codes "level") r.fields ≡ none
    pub no_message : lookup (codes "message") r.fields ≡ none

  -- A line that is a timestamp without a space, which `fromisoformat` reads once its Z is replaced, a
  -- space and a payload, gives a record: with the time, the number, the whole line, the payload's
  -- level and message if it is a JSON object, or else "info" and the payload itself, and without
  -- these two among the other fields.
  pub parse_line-IsRecordOf :
      (docker_host container_id container_name before payload : Text) (stream : StreamName)
      (ts : DateTime) (seq : ℕ)
      → All (λ c. nat_eq c b' ' ≡ false) before
      → lib.fromisoformat (replace_z before) ≡ some ts
      → (r : LogRecord) × (parse_line lib docker_host container_id container_name
            (record { stream = stream; text = before ++ (b' ' ∷ payload) })
            seq
          ≡ some r)
        × IsRecordOf
            (record { stream = stream; text = before ++ (b' ' ∷ payload) })
            payload
            ts
            seq
            r
  unfolding parse_line
  parse_line-IsRecordOf host id name before payload stream ts seq no_space in_time =
      let line : StreamLine = record { stream = stream; text = before ++ (b' ' ∷ payload) } in
      let o = try_parse_json_object lib payload in
      (
        record_of lib host id name line seq ts payload,
        ap (λ p. dated lib host id name line seq (lib.fromisoformat (replace_z p.0)) p.1)
              (partition_space-append before payload no_space)
            ∙ ap (λ t. dated lib host id name line seq t payload) in_time,
        record {
          raw = refl;
          stream = refl;
          time = refl;
          number = refl;
          level = content-given-level payload o;
          message = content-given-message payload o;
          no_level = content-level payload o;
          no_message = content-message payload o;
        },
      )
