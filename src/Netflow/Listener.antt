-- ===== src/Netflow/Listener.antt =====
-- internal/source/netflow/netflow.go: the UDP listener. What the socket and the template store hand
-- to it is a list of events; a goroutine's critical section is one event.
use netflow_collector.Base.{
  ℕ, suc, ◌≡◌, Bool, true, false, Option, none, some, List, [], ◌∷◌, ◌++◌, length, take, ltb,
  if◌then◌else◌, Text,
}
use netflow_collector.Flow.Time.{Time, trunc_micro}
use netflow_collector.Flow.Addr.{Addr, invalid, unmap, addr_from_slice}
use netflow_collector.Flow.Record.{FlowRecord}
use netflow_collector.Netflow.V5.{Records, ok, err}
use netflow_collector.Netflow.Decoder.{Goflow, Decoder, templates_for, decode}
pub mod Origin
pub mod Exporters

-- net.Addr: a UDP address with its IP's bytes, or another kind.
pub data NetAddr : Type 0 where
  udp : List ℕ → NetAddr
  other : NetAddr

unfoldable pub exporter_addr : NetAddr → Addr
exporter_addr (udp ip) = unmap (addr_from_slice ip)
exporter_addr other = invalid

-- A datagram as ReadFrom returns it, with the time that `now` answers.
pub record Datagram : Type 0 where
  pub bytes : List ℕ
  pub from : NetAddr
  pub at : Time

-- What the loop meets: a datagram, whose records all go out or of which the channel takes only so
-- many before the context ends; a failed read, with whether the context or the socket has ended;
-- a template that the store delivers.
pub data Input : Type 0 where
  received : Datagram → Option ℕ → Input
  read_failed : Bool → Input
  stored : Text → Text → Input

-- How a stored template gets into the decoder, which touches the systems one by one.
pub record Store (goflow : Goflow) : Type 0 where
  pub apply : Decoder goflow → Text → Text → Decoder goflow
  pub apply_local :
      (d d' : Decoder goflow) (key value : Text) (a : Addr)
      → templates_for goflow d a ≡ templates_for goflow d' a
      → templates_for goflow (apply d key value) a ≡ templates_for goflow (apply d' key value) a

module _ (goflow : Goflow) where
  pub record Listener : Type 0 where
    pub dec : Decoder goflow
    pub out : List FlowRecord
    pub decode_errors : ℕ

  -- `for _, rec := range records`, with whether the context ended on the way.
  unfoldable pub send : Option ℕ → List FlowRecord → Bool × List FlowRecord
  send none records = (false, records)
  send (some n) records =
      if ltb n (length records) then (true, take n records) else (false, records)

  unfoldable pub take_records : Option ℕ → Records → Listener → Bool × Listener
  unfolding send
  take_records cut (err e) l = (false, record l { decode_errors = suc l.decode_errors })
  take_records cut (ok records) l =
      let (ended, sent) = send cut records in (ended, record l { out = l.out ++ sent })

  module _ (store : Store goflow) where
    open store use {apply}

    -- One round of the loop, and whether `Start` returns.
    unfoldable pub handle : Listener → Input → Bool × Listener
    handle l (received g cut) =
        let (records, dec) =
          decode goflow l.dec g.bytes (exporter_addr g.from) (trunc_micro g.at) in
        take_records cut records (record l { dec = dec })
    handle l (read_failed ended) = (ended, l)
    handle l (stored key value) = (false, record l { dec = apply l.dec key value })

    unfoldable pub listen : Listener → List Input → Listener
    listen l [] = l
    listen l (e ∷ es) =
        let (ended, next) = handle l e in let rest = listen next es in if ended then next else rest

    -- `Start`, where `bound` says whether the socket could be opened: none is its error.
    unfoldable pub start_source : Bool → Listener → List Input → Option Listener
    start_source true l es = some (listen l es)
    start_source false l es = none
