-- ===== src/Examples/Statements.antt =====
-- A server that binds placeholders, asked with four filters.
use netflow_collector.Base.{◌≡◌, refl, ap, Option, none, some, List, [], ◌∷◌, arith}
use netflow_collector.Flow.Addr.{Addr}
use netflow_collector.Sink.Query.{FlowQuery, Condition, Row, query}
use netflow_collector.Sink.Mariadb.{Value, number}
use netflow_collector.Sink.Mariadb.Query.{Clause, query_mariadb}
use netflow_collector.Sink.Mariadb.Query.Placeholders.{bind, Answers, query_mariadb-query}
use netflow_collector.Examples.Pages.{tokens, select, request}

abbrev answer : Option (List Condition × List Value) → Option (List Row)
answer (some (cs, number l ∷ [])) = select (record { conditions = cs; limit = l })
answer _ = none

abbrev server : List Clause → List Value → Option (List Row)
server w args = answer (bind w args)

abbrev binding : Answers server select
binding = record { binds = λ w args cs l e. ap answer e }

abbrev narrow : FlowQuery
narrow = record request {
  exporter_id = 3;
  src_addr = Addr.v4 167_772_161;
  dst_addr = Addr.v6 1 "";
  protocol = some 6;
}

query_mariadb-query_example : query_mariadb tokens server narrow ≡ query tokens select narrow
query_mariadb-query_example =
    query_mariadb-query tokens server select binding narrow (omega arith) (omega arith, refl)
