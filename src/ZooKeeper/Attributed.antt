-- ===== src/ZooKeeper/Attributed.antt =====
-- `ParseLine` of plugin/zookeeper.go: where the id, the subject and the status of an event come from.
use panorama.Prelude.{
  ◌==◌, ◌≡◌, ◌⊎◌, refl, subst, GoString, string_eq, str, Option, some, List, [], ◌++◌, Bool, true,
  false, ◌&&◌, not, if◌then◌else◌, nat_beq, length, Option-cases, Bool-cases, inl, inr,
}
use panorama.Prelude.Map
use panorama.Prelude.Map.{GoMap, get-put}
use panorama.Filter.Ensured.{Ensures, Ensures-bind, Ensures-imp, Ensures-all}
use panorama.Filter.{
  returns, Fields, field_of, FieldClassifier, FieldClassifierResult, RegexpOps, eval,
  find_string_submatch_map,
}
use panorama.ZooKeeper.{
  Event, ZkServer, ZooKeeperEventParser, Standard, Patterns, slice_to, slice_from, or_nil, is_port,
  resolve_tag, subject_named, event_of, tagged, classify, parse_line,
}
use panorama.ZooKeeper.Plugin.{in_ensemble}
use panorama.ZooKeeper.Lookup.{
  is_listed, is_address, IsFor, addr-is_listed, addr-is_address, eid-in_ensemble,
}

module _ {Re : Type 0} (ops : RegexpOps Re) (std : Standard) (regs : Patterns Re)
    (ensemble : List ZkServer) (parser : ZooKeeperEventParser) where
  abbrev by_id_of : GoString → Fields
  by_id_of tag = find_string_submatch_map ops regs.tag_id_reg tag []

  abbrev by_host_of : GoString → Fields
  by_host_of tag = find_string_submatch_map ops regs.tag_host_reg tag []

  abbrev host_of : GoString → GoString
  host_of tag = field_of (by_host_of tag) (str "host")

  abbrev is_host : GoString → Bool
  is_host tag =
      not (nat_beq (length (by_host_of tag)) 0)
      && std.is_ip (host_of tag)
      && is_port std (field_of (by_host_of tag) (str "port"))

  -- The subject and the context of a tag: those of the server that it names by its id or its
  -- address, and else the id of the line, which also is what 0.0.0.0 stands for.
  pub data IsTagged (myid tag : GoString) : GoString → GoString → Type 0 where
    by_id :
        nat_beq (length (by_id_of tag)) 0 ≡ false
        → in_ensemble (field_of (by_id_of tag) (str "id")) ensemble ≡ true
        → IsTagged myid tag
            (field_of (by_id_of tag) (str "id"))
            (field_of (by_id_of tag) (str "context"))
    by_own_host :
        nat_beq (length (by_id_of tag)) 0 ≡ true
        → is_host tag ≡ true
        → (host_of tag == str "0.0.0.0") ≡ true
        → IsTagged myid tag myid (field_of (by_host_of tag) (str "context"))
    by_host :
        (eid : GoString)
        → nat_beq (length (by_id_of tag)) 0 ≡ true
        → is_host tag ≡ true
        → (host_of tag == str "0.0.0.0") ≡ false
        → is_listed eid (host_of tag) ensemble ≡ true
        → IsTagged myid tag eid (field_of (by_host_of tag) (str "context"))
    by_line :
        nat_beq (length (by_id_of tag)) 0 ≡ true → is_host tag ≡ false → IsTagged myid tag myid tag

  resolve_tag-IsTagged :
      (myid tag : GoString)
      → IsFor ensemble parser
      → Ensures
          (λ tagging. IsTagged myid tag tagging.0 tagging.1)
          (resolve_tag ops std regs parser myid tag)
  unfolding resolve_tag
  resolve_tag-IsTagged myid tag p = elim (Bool-cases (nat_beq (length (by_id_of tag)) 0)) [
    | inr e ↦ elim (Bool-cases (Map.has (field_of (by_id_of tag) (str "id")) parser.eid_addr_map)) [
      | inl f ↦ rw (resolve_tag, e, f) (by_id e (eid-in_ensemble ensemble parser _ p f))
      | inr f ↦ rw (resolve_tag, e, f) tt
    ]
    | inl e ↦ elim (Bool-cases (is_host tag)) [
      | inr f ↦ rw (resolve_tag, e, f) (by_line e f)
      | inl f ↦ elim (Bool-cases (host_of tag == str "0.0.0.0")) [
        | inl g ↦ rw (resolve_tag, e, f, g) (by_own_host e f g)
        | inr g ↦ elim (Option-cases (Map.get (host_of tag) parser.addr_eid_map)) [
          | inl k ↦ rw (resolve_tag, e, f, g, k) tt
          | inr (eid, k) ↦
              rw (resolve_tag, e, f, g, k)
                (by_host eid e f g (addr-is_listed ensemble parser _ eid p k))
        ]
      ]
    ]
  ]

  -- The subject that an event gets: the tag's if the classifier names none, and else the id of the
  -- server with the address that the classifier names, or the name itself if no server has it.
  abbrev pub IsSource : GoString → GoString → GoString → Type 0
  IsSource subject tag_subject named =
      ((nat_beq (length named) 0 ≡ true) × (subject ≡ tag_subject))
      ⊎ ((nat_beq (length named) 0 ≡ false) × (is_listed subject named ensemble ≡ true))
      ⊎ ((nat_beq (length named) 0 ≡ false)
          × (is_address named ensemble ≡ false)
          × (subject ≡ named))

  subject_named-IsSource :
      (named tag_subject : GoString)
      → IsFor ensemble parser
      → IsSource (subject_named ops std regs parser named tag_subject) tag_subject named
  unfolding subject_named
  subject_named-IsSource named tag_subject p = elim (Bool-cases (nat_beq (length named) 0)) [
    | inl e ↦ inl (e, rw (subject_named, e))
    | inr e ↦ elim (Option-cases (Map.get named parser.addr_eid_map)) [
      | inl f ↦ inr (inr (e, addr-is_address ensemble parser named p f, rw (subject_named, e, f)))
      | inr (eid, f) ↦
          inr (inl (e, rw (subject_named, e, f) (addr-is_listed ensemble parser named eid p f)))
    ]
  ]

  -- The part of an event that its classifier and its line give.
  pub record IsMade (fields : Fields) (cres : FieldClassifierResult)
      (tag_subject tag_context : GoString) (event : Event) : Type 0 where
    pub subject : GoString
    pub named : event.subject ≡ parser.entity_id_prefix ++ subject
    pub not_empty : nat_beq (length subject) 0 ≡ false
    pub source : IsSource subject tag_subject cres.subject
    pub context :
        event.context
        ≡ (if not (nat_beq (length cres.context) 0) then cres.context else tag_context)
    pub extra : event.extra ≡ field_of fields (str "content")
    pub status : event.status ≡ cres.status
    pub score : event.score ≡ cres.score
    pub id : event.id ≡ parser.entity_id_prefix ++ field_of fields (str "id")

  event_of-IsMade :
      (fields : Fields) (cres : FieldClassifierResult) (tag_subject tag_context : GoString)
      → IsFor ensemble parser
      → Ensures
          (IsMade fields cres tag_subject tag_context)
          (event_of ops std regs parser fields cres tag_subject tag_context)
  unfolding event_of
  event_of-IsMade fields cres tag_subject tag_context p =
      elim (Bool-cases
        (nat_beq (length (subject_named ops std regs parser cres.subject tag_subject)) 0)) [
          | inl e ↦ rw (event_of, e) tt
          | inr e ↦
              rw (event_of, e)
                (Ensures-bind _ _ (slice_to 19 (field_of fields (str "time"))) _ (Ensures-all _)
                  λ date u.
                    Ensures-bind _ _ (or_nil (std.parse_time date)) _ (Ensures-all _) λ timestamp v.
                      Ensures-bind _ _ (slice_from 20 (field_of fields (str "time"))) _
                        (Ensures-all _)
                        λ digits w.
                          Ensures-bind _ _ (or_nil (std.atoi digits)) _ (Ensures-all _) λ ms x.
                            record {
                              subject = subject_named ops std regs parser cres.subject tag_subject;
                              named = refl;
                              not_empty = e;
                              source = subject_named-IsSource cres.subject tag_subject p;
                              context = refl;
                              extra = refl;
                              status = refl;
                              score = refl;
                              id = refl;
                            })
        ]

  -- Where an event of a line with these fields comes from.
  pub record IsAttributed (fields : Fields) (event : Event) : Type 0 where
    pub matched : nat_beq (length fields) 0 ≡ false
    pub level : (field_of fields (str "level") == str "DEBUG") ≡ false
    pub tag_subject : GoString
    pub tag_context : GoString
    pub tagging :
        IsTagged (field_of fields (str "id")) (field_of fields (str "tag")) tag_subject tag_context
    pub captured : Option Fields
    pub classifier : FieldClassifier
    pub chosen :
        eval parser.filter_tree (tagged ops std regs parser fields tag_subject tag_context)
        ≡ some (captured, classifier)
    pub made : IsMade fields (classifier captured) tag_subject tag_context event

  classify-IsAttributed :
      (fields : Fields) (tag_subject tag_context : GoString)
      → IsFor ensemble parser
      → nat_beq (length fields) 0 ≡ false
      → (field_of fields (str "level") == str "DEBUG") ≡ false
      → IsTagged (field_of fields (str "id")) (field_of fields (str "tag")) tag_subject tag_context
      → Ensures
          (IsAttributed fields)
          (classify ops std regs parser fields (tag_subject, tag_context))
  unfolding classify
  classify-IsAttributed fields tag_subject tag_context p q l k =
      elim (Option-cases
        (eval parser.filter_tree (tagged ops std regs parser fields tag_subject tag_context))) [
          | inl e ↦ rw (classify, e) tt
          | inr ((captured, classifier), e) ↦
              rw (classify, e)
                (Ensures-imp _ _
                  (event_of ops std regs parser fields (classifier captured) tag_subject
                    tag_context)
                  (event_of-IsMade fields (classifier captured) tag_subject tag_context p)
                  λ event m. record {
                    matched = q;
                    level = l;
                    tag_subject = tag_subject;
                    tag_context = tag_context;
                    tagging = k;
                    captured = captured;
                    classifier = classifier;
                    chosen = e;
                    made = m;
                  })
        ]

  abbrev fields_of : GoString → Fields
  fields_of line = find_string_submatch_map ops regs.zkline_reg line []

  -- `ParseLine`, with the maps of an ensemble, returns an event only for a line that matches and whose
  -- level is not DEBUG. Its id and its text are the line's. Its status and score are those of the
  -- classifier that the filters choose. Its subject is not empty: it is the one that the classifier
  -- names, as the id of the server with that address if there is one, and else the tag's, which is
  -- a server of the ensemble that the tag names by id or address, or else the line's own id. Its
  -- context is the classifier's, and else the tag's.
  pub parse_line-IsAttributed :
      (line : GoString) (event : Event)
      → IsFor ensemble parser
      → parse_line ops std regs parser line ≡ returns event
      → IsAttributed (fields_of line) event
  unfolding parse_line
  parse_line-IsAttributed line event p h = subst (Ensures (IsAttributed (fields_of line))) h ensured
    where
      ensured : Ensures (IsAttributed (fields_of line)) (parse_line ops std regs parser line)
      ensured = elim (Bool-cases (nat_beq (length (fields_of line)) 0)) [
        | inl e ↦ rw (parse_line, e) tt
        | inr e ↦ elim (Bool-cases (field_of (fields_of line) (str "level") == str "DEBUG")) [
          | inl f ↦ rw (parse_line, e, f) tt
          | inr f ↦
              rw (parse_line, e, f)
                (Ensures-bind _ _ (resolve_tag ops std regs parser _ _) _
                  (resolve_tag-IsTagged _ (field_of (fields_of line) (str "tag")) p)
                  λ tagging k. classify-IsAttributed (fields_of line) tagging.0 tagging.1 p e f k)
        ]
      ]
