-- ===== src/Proxy/SessionTests.antt =====
-- Sessions of src/commercialrchproxy/proxy/session.py with concrete events.
use commercial_rchproxy.Common.{
  ℕ, true, false, none, some, [], ◌∷◌, ◌==◌, if◌then◌else◌, ◌≡◌, refl, codes,
}
use commercial_rchproxy.Recorder.Types.{relay_continues}
use commercial_rchproxy.Proxy.Pump.{
  pump, chunk, end_of_stream, read_cancelled, token_given, drained,
}
use commercial_rchproxy.Proxy.Session.{
  ConnectAnswer, opened, failed, World, client_done, tail_done, tail_timed_out, acquire_lock,
  connect_attempt, start_pumps, end_pumps, finalize, close_printer, close_client, release_lock,
  track_persistence, closed, transport_error, printer_unreachable, delivery_unknown, tail_timeout,
  unreachable, run_session,
}
use commercial_rchproxy.Proxy.Observer.{Orderly}
use commercial_rchproxy.Proxy.Orderly.{run_session-Orderly}
use commercial_rchproxy.Proxy.Delivered.{BothRelay, run_session-closed}

abbrev second_attempt : ℕ → ConnectAnswer
second_attempt attempt = if attempt == 1 then failed false else opened

abbrev receipt : World
receipt = record {
  lock_granted = true;
  connects = second_attempt;
  first = client_done;
  tail = tail_done;
  gather_cancelled = false;
  client_events = chunk (codes "ab") token_given drained false ∷ end_of_stream none ∷ [];
  printer_events = chunk (codes "c") token_given drained false ∷ end_of_stream none ∷ [];
  pumps_wait_cancelled = false;
  finalize_raises = false;
  printer_close_cancelled = false;
  client_close_cancelled = false;
}

-- The first attempt to connect fails, the second one does not.
receipt-actions : run_session relay_continues 3 receipt ≡ record {
  actions =
      acquire_lock
      ∷ connect_attempt 1
      ∷ connect_attempt 2
      ∷ start_pumps
      ∷ end_pumps
      ∷ finalize delivery_unknown
      ∷ close_printer
      ∷ close_client false
      ∷ release_lock
      ∷ track_persistence
      ∷ [];
  end = some (closed, delivery_unknown);
}
unfolding run_session pump
receipt-actions = refl

-- With one attempt the printer is not reached, and the client's connection is aborted.
receipt-unreachable : run_session relay_continues 1 receipt ≡ record {
  actions =
      acquire_lock
      ∷ connect_attempt 1
      ∷ finalize unreachable
      ∷ close_client true
      ∷ release_lock
      ∷ track_persistence
      ∷ [];
  end = some (printer_unreachable, unreachable);
}
unfolding run_session pump
receipt-unreachable = refl

-- The printer does not end its stream in time, and the capture cannot be finalized.
abbrev slow_printer : World
slow_printer = record receipt {
  tail = tail_timed_out;
  printer_events = chunk (codes "c") token_given drained false ∷ read_cancelled ∷ [];
  finalize_raises = true;
}

slow_printer-actions : run_session relay_continues 3 slow_printer ≡ record {
  actions =
      acquire_lock
      ∷ connect_attempt 1
      ∷ connect_attempt 2
      ∷ start_pumps
      ∷ end_pumps
      ∷ finalize tail_timeout
      ∷ close_printer
      ∷ close_client true
      ∷ release_lock
      ∷ [];
  end = some (transport_error, tail_timeout);
}
unfolding run_session pump
slow_printer-actions = refl

-- The service is stopped while the printer's side is closed: the client's side is left open.
left_open :
    (run_session relay_continues 3 (record receipt { printer_close_cancelled = true })).actions
    ≡ acquire_lock
      ∷ connect_attempt 1
      ∷ connect_attempt 2
      ∷ start_pumps
      ∷ end_pumps
      ∷ finalize delivery_unknown
      ∷ close_printer
      ∷ release_lock
      ∷ []
unfolding run_session pump
left_open = refl

receipt-end : (run_session relay_continues 3 receipt).end ≡ some (closed, delivery_unknown)
unfolding run_session pump
receipt-end = refl

run_session-Orderly_example : Orderly 3 slow_printer (run_session relay_continues 3 slow_printer)
run_session-Orderly_example = run_session-Orderly relay_continues 3 slow_printer

run_session-closed_example :
    BothRelay relay_continues receipt × (delivery_unknown ≡ delivery_unknown)
run_session-closed_example =
    run_session-closed relay_continues 3 receipt delivery_unknown receipt-end
