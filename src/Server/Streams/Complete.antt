-- ===== src/Server/Streams/Complete.antt =====
-- What a client that stays connected gets from the stream of the audit log.
use nova_adapt.Base.{
  ℕ, ◌+◌, ◌≤◌, String, Bool, true, ◌≡◌, refl, sym, ap, ◌∙◌, Option, none, some, List, [], ◌∷◌, ◌++◌,
  map, filter, length, ltb, max, All, append_assoc, append-nil,
}
use mathlib.Core.List.{reverse}
use nova_adapt.Runtime.AuditStore.{Event, AuditStore, make_store, watch}
use nova_adapt.Runtime.AuditStore.Watch.{Call, apply_all, IsLog, apply_all-IsLog}
use nova_adapt.Runtime.AuditStore.Watch.Grows.{
  Grown, Grown-none, Grown-step, apply_all-Grown, filter-Grown, watch-Grown, top,
}
use nova_adapt.Server.Streams.{
  Message, new_rows, audit, timed_out, write_sse_event, send_rows, stream_from, stream_audit_events,
}

abbrev pub connected : List Message → Message → Bool
connected sent m = true

-- The stores after each batch of calls.
abbrev pub visited : List (List Call) → AuditStore → List (Option AuditStore)
visited [] s = []
visited (calls ∷ batches) s = some (apply_all calls s) ∷ visited batches (apply_all calls s)

abbrev pub after_rounds : List (List Call) → AuditStore → AuditStore
after_rounds [] s = s
after_rounds (calls ∷ batches) s = after_rounds batches (apply_all calls s)

abbrev number_of_calls : List (List Call) → ℕ
number_of_calls [] = 0
number_of_calls (calls ∷ batches) = length calls + number_of_calls batches

after_rounds-Grown :
    (batches : List (List Call)) (s : AuditStore)
    → s.retention ≡ 0
    → Grown (number_of_calls batches) s (after_rounds batches s)
after_rounds-Grown [] s h = Grown-none 0 s
after_rounds-Grown (calls ∷ batches) s h =
    let s' = apply_all calls s in
    let g = apply_all-Grown calls s h in
    Grown-step (length calls) (number_of_calls batches) s s' (after_rounds batches s') g
      (after_rounds-Grown batches s' (g.kept ∙ h))

map-append : (xs ys : List Event) → map audit (xs ++ ys) ≡ map audit xs ++ map audit ys
map-append [] ys = refl
map-append (x ∷ xs) ys = ap (λ l. audit x ∷ l) (map-append xs ys)

send_rows-connected :
    (es : List Event) (last : ℕ) (sent : List Message)
    → send_rows connected es last sent ≡ (some (top last es), sent ++ map audit es)
unfolding send_rows write_sse_event
send_rows-connected [] last sent = ap (λ l. (some last, l)) (sym (append-nil sent))
send_rows-connected (e ∷ es) last sent =
    send_rows-connected es (max last e.id) (sent ++ audit e ∷ [])
    ∙ ap (λ l. (some (top (max last e.id) es), l)) (append_assoc sent (audit e ∷ []) (map audit es))

stream_from-connected :
    (request_id : String) (batches : List (List Call)) (s : AuditStore) (sent : List Message)
    → s.retention ≡ 0
    → IsLog s
    → All (λ calls. length calls ≤ 200) batches
    → stream_from connected request_id s.last_id (visited batches s) sent
      ≡ sent
        ++ (map audit (filter (λ e. ltb s.last_id e.id) (after_rounds batches s).rows)
            ++ timed_out none request_id ∷ [])
unfolding stream_from write_sse_event watch
stream_from-connected request_id [] s sent h log few =
    ap (λ l. sent ++ (map audit l ++ timed_out none request_id ∷ []))
      (sym (filter-Grown 0 s s (Grown-none 0 s) log))
stream_from-connected request_id (calls ∷ batches) s sent h log few =
    let s' = apply_all calls s in
    let final = after_rounds batches s' in
    let g = apply_all-Grown calls s h in
    let rest = after_rounds-Grown batches s' (g.kept ∙ h) in
    let log' = apply_all-IsLog calls s log in
    let end = timed_out none request_id ∷ [] in
    let sends : send_rows connected (reverse (new_rows connected s.last_id (some s'))) s.last_id
          sent
        ≡ (some s'.last_id, sent ++ map audit g.added) =
      ap (λ es. send_rows connected es s.last_id sent)
        (watch-Grown (length calls) s s' g few.0 log log')
      ∙ send_rows-connected g.added s.last_id sent
      ∙ ap (λ last. (some last, sent ++ map audit g.added)) g.reached in
    rw (sends, stream_from)
      (ap
          (λ (r : Option ℕ × List Message).
            stream_from connected request_id s'.last_id (visited batches s') r.1)
          sends
        ∙ stream_from-connected request_id batches s' (sent ++ map audit g.added) (g.kept ∙ h) log'
            few.1
        ∙ ap (λ es. (sent ++ map audit g.added) ++ (map audit es ++ end))
            (filter-Grown (number_of_calls batches) s' final rest log')
        ∙ append_assoc sent (map audit g.added) (map audit rest.added ++ end)
        ∙ ap (λ l. sent ++ l)
            (sym (append_assoc (map audit g.added) (map audit rest.added) end)
              ∙ ap (λ l. l ++ end) (sym (map-append g.added rest.added)))
        ∙ ap (λ es. sent ++ (map audit es ++ end))
            (sym (
              filter-Grown (length calls + number_of_calls batches) s final
                (Grown-step (length calls) (number_of_calls batches) s s' final g rest) log)))

-- A client connects to the stream of a log whose rows do not expire, at the position of its last row,
-- and stays connected. If at most 200 calls of `append` and `prune_expired` are made from the connection
-- to the first round and between any two rounds, the stream sends each row that is appended until the
-- last round exactly once, in the order of appending, nothing else, and at last the event of the timeout.
pub audit_stream_complete :
    (interval : ℕ) (before : List Call) (batches : List (List Call)) (request_id : String)
    → All (λ calls. length calls ≤ 200) batches
    → let s = apply_all before (make_store 0 interval) in
      stream_audit_events connected request_id s.last_id (visited batches s)
      ≡ map audit (filter (λ e. ltb s.last_id e.id) (after_rounds batches s).rows)
        ++ timed_out none request_id ∷ []
unfolding stream_audit_events
audit_stream_complete interval before batches request_id few =
    let s0 = make_store 0 interval in
    let s = apply_all before s0 in
    stream_from-connected request_id batches s [] (apply_all-Grown before s0 refl).kept
      (apply_all-IsLog before s0 (tt, tt)) few
