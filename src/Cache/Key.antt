-- ===== src/Cache/Key.antt =====
-- plugin/cache.rs: `key_of`, the text under which a response is kept.
use ferrumdns.Base.{
  Bool, true, not, ◌&&◌, Option, none, some, ◌++◌, Text, codes, ◌==◌, length, first, all, is_empty,
  to_ascii_lowercase, trim_end_by, decimal, true_or_false, hex_items, if◌then◌else◌, ok, err,
}
use ferrumdns.Context.{QueryContext}
use ferrumdns.Dns.{subnet_code, Query, Edns, Message, Hickory}
use ferrumdns.Dnsutil.{encode, ecs_cache_key}

-- No EDNS option but a client subnet.
unfoldable pub cacheable_edns : Message → Bool
cacheable_edns msg = elim msg.edns [
  | none ↦ true
  | some e ↦ all (λ o. o.0 == subnet_code) e.options
]

abbrev pub is_simple : Message → Bool
is_simple q =
    length q.queries == 1 && is_empty q.answers && is_empty q.name_servers && is_empty q.additionals

-- `edns.map(|e| (e.version(), e.flags().dnssec_ok))`, as `{:?}` prints it.
abbrev pub edns_text : Option Edns → Text
edns_text none = codes "None"
edns_text (some e) =
    codes "Some(("
    ++ (decimal e.version ++ (codes ", " ++ (true_or_false e.dnssec_ok ++ codes "))")))

module _ (H : Hickory) where
  unfoldable pub key_name : Query → Text
  unfolding to_ascii_lowercase trim_end_by
  key_name q = to_ascii_lowercase (trim_end_by (λ c. c == b'.') q.name)

  unfoldable pub simple_key : Message → Query → Text
  unfolding key_name ecs_cache_key
  simple_key q q0 =
      key_name q0
      ++ (codes "|"
          ++ (H.type_text q0.query_type
              ++ (codes "|"
                  ++ (H.class_text q0.query_class
                      ++ (codes "|"
                          ++ (ecs_cache_key H q
                              ++ (codes "|rd="
                                  ++ (true_or_false q.recursion_desired
                                      ++ (codes "|cd="
                                          ++ (true_or_false q.checking_disabled
                                              ++ (codes "|ad="
                                                  ++ (true_or_false q.authentic_data
                                                      ++ (codes "|edns="
                                                          ++ edns_text q.edns)))))))))))))

  unfoldable pub wire_key : Message → Option Text
  unfolding encode
  wire_key q = elim (encode H (record q { id = 0 })) [
    | err e ↦ none
    | ok wire ↦ some (codes "wire:[" ++ (hex_items wire ++ codes "]"))
  ]

  unfoldable pub key_of : QueryContext → Bool → Option Text
  unfolding cacheable_edns simple_key wire_key
  key_of ctx everything =
      let q = ctx.query in
      if not (cacheable_edns q)
      then none
      else if not (is_simple q) && not everything
      then none
      else if not (is_simple q)
      then wire_key q
      else elim (first q.queries) [ none ↦ none | some q0 ↦ some (simple_key q q0) ]
