-- ===== src/Examples/Threads.antt =====
-- Two threads of the server, and two messages of one client.
use secure_ci_coding.Base.{
  ℕ, ◌+◌, ◌≡◌, ◌⊎◌, inl, refl, arith, true, false, none, [], ◌∷◌, ◌++◌, List, Bytes, codes, length,
  same, contains, starts_with, has_dotdot, cstr, if◌then◌else◌, ◌==◌,
}
use secure_ci_coding.Common.{
  vulnerable, fixed, op_code, delete, logout, list, admin, guest, use_after_free, ok, err_session,
}
use secure_ci_coding.Session.{
  session_lookup, lookup_loop, session_destroy, session_destroy_by_ptr, destroy_loop, remove_slot,
  shift_down, is_registered,
}
use secure_ci_coding.FileHandler.Disk.{Disk, system_of, perform, IsPlace}
use secure_ci_coding.Server.{Request, waiting, process_loop}
use secure_ci_coding.Server.Stream.{Message, packets}
use secure_ci_coding.Dispatch.{handle, switch, Running, serve}
use secure_ci_coding.Dispatch.State.{Vault, Calls, plain, with_sessions}
use secure_ci_coding.FileHandler.{removes, file_delete}
use secure_ci_coding.Dispatch.Handlers.{handle_delete}
use secure_ci_coding.Dispatch.Threads.{handle_among, find_slot, expired}
use secure_ci_coding.Dispatch.Threads.Gate.{Passed, pointer, at_switch, at_reads, handle_among-gate}
use secure_ci_coding.Dispatch.Threads.Quiet.{quiet}
use secure_ci_coding.Dispatch.Threads.Windows.{
  behind_unlock, behind_lookup, behind_validate, IsFirst,
}
use secure_ci_coding.Dispatch.Threads.Races.{
  log_out, handle_among-confused, handle_among-refuses, handle_among-races,
}
use secure_ci_coding.Dispatch.Responses.{Answered, process_loop-responses}
use secure_ci_coding.Dispatch.FileRequests.{upload_request, download_request}
use secure_ci_coding.Dispatch.Transfer.{IsOpen, download-upload}
use secure_ci_coding.Examples.Requests.{
  plain as same_password, session_at, sessions_of, two-Inv, calls, vault_of,
}

abbrev first_delete : Request
first_delete = record { op = op_code delete; session_id = 1; data_len = 1; content = b'a' ∷ 0 ∷ [] }

IsFirst-zero : IsFirst (sessions_of 2) 1 0
IsFirst-zero = record {
  used = omega arith;
  active = (refl, refl);
  first = λ j h. absurd (omega arith);
}

handle_among-gate_example :
    ((handle_among same_password fixed calls
        (behind_unlock (log_out fixed 1))
        first_delete
        (vault_of 2)).0.code
      ≡ err_session)
    ⊎ ((k : ℕ) × Passed calls (behind_unlock (log_out fixed 1)) first_delete (vault_of 2) k
        × (handle_among same_password fixed calls
              (behind_unlock (log_out fixed 1))
              first_delete
              (vault_of 2)
            ≡ switch fixed calls first_delete
                (pointer (behind_unlock (log_out fixed 1)) first_delete (vault_of 2) k)
                (at_switch
                  (behind_unlock (log_out fixed 1))
                  (pointer (behind_unlock (log_out fixed 1)) first_delete (vault_of 2) k)
                  (at_reads (behind_unlock (log_out fixed 1)) first_delete (vault_of 2)))))
handle_among-gate_example =
    handle_among-gate same_password calls (behind_unlock (log_out fixed 1)) first_delete
      (vault_of 2) (λ e. omega arith)

handle_among-confused_example :
    handle_among same_password fixed calls
      (behind_unlock (log_out fixed 1))
      first_delete
      (vault_of 2)
    ≡ switch fixed calls first_delete 2 (log_out fixed 1 (vault_of 2))
handle_among-confused_example =
    handle_among-confused same_password fixed calls first_delete (vault_of 2) 0 two-Inv
      (λ e. omega arith) IsFirst-zero (omega arith) refl (omega arith)

-- The other thread empties the table.
abbrev emptied : Vault → Vault
emptied s = with_sessions (sessions_of 0) s

handle_among-refuses_example :
    handle_among same_password fixed calls (behind_lookup emptied) first_delete (vault_of 2)
    ≡ expired (emptied (vault_of 2))
handle_among-refuses_example =
    handle_among-refuses same_password calls emptied first_delete (vault_of 2) 0 two-Inv
      (λ e. omega arith) IsFirst-zero (λ (k, h, e). absurd (omega arith))

handle_among-races_example :
    (handle_among same_password fixed calls
      (behind_validate emptied)
      first_delete
      (vault_of 2)).1.sessions.faults
    ≡ use_after_free ∷ []
handle_among-races_example =
    handle_among-races same_password fixed calls emptied first_delete (vault_of 2) 0 two-Inv
      (inl refl) IsFirst-zero (omega arith) refl

-- A log-out and a listing, in one buffer.
abbrev two_messages : List Message
two_messages =
    record { op = logout; session_id = 1; payload = [] }
    ∷ record { op = list; session_id = 2; payload = codes "a" }
    ∷ []

abbrev running : Running
running = record { vault = vault_of 2; turn = 0; responses = [] }

process_loop-responses_example :
    (t : Running) × (rs : List Bytes) × (process_loop
        (serve same_password fixed (λ k. calls))
        3
        (packets two_messages ++ [])
        (length (packets two_messages))
        0
        running
      ≡ waiting (length (packets two_messages)) t)
    × (t.responses ≡ [] ++ rs)
    × Answered two_messages rs
    × (t.turn ≡ 0 + 2)
process_loop-responses_example =
    process_loop-responses same_password fixed (λ k. calls) two_messages [] running (λ k. refl)
      ((omega arith, omega arith), ((omega arith, omega arith), tt))

-- An empty disk with a directory; no path is a link.
abbrev empty_disk : Disk
empty_disk = record { resolve = λ p. p; files = λ p. none; is_dir = λ p. same p (codes "/data") }

IsPlace-a : IsPlace empty_disk (codes "/data") (codes "a")
unfolding same
IsPlace-a = record {
  named = omega arith;
  canonical = refl;
  directory = refl;
  place = refl;
  no_directory = refl;
}

abbrev writing : Calls
writing = record calls { system = system_of true empty_disk }

abbrev reading : Calls
reading = record calls {
  system = system_of false (
      perform
        (handle same_password vulnerable writing (upload_request 1 (codes "a") (codes "hello") [])
          (vault_of 2)).1.effects
        empty_disk);
}

IsOpen-first : IsOpen (sessions_of 2) 1 1000 0
unfolding session_lookup lookup_loop
IsOpen-first = record {
  used = omega arith;
  active = (refl, refl);
  found = refl;
  early = omega arith;
}

IsOpen-second : IsOpen (sessions_of 2) 2 1000 1
unfolding session_lookup lookup_loop
IsOpen-second = record {
  used = omega arith;
  active = (refl, refl);
  found = refl;
  early = omega arith;
}

download-upload_example :
    ((handle same_password vulnerable writing
        (upload_request 1 (codes "a") (codes "hello") [])
        (vault_of 2)).0
      ≡ plain ok (codes "UPLOAD_OK"))
    × ((handle same_password vulnerable reading
          (download_request 2 (codes "a") [])
          (handle same_password vulnerable writing
            (upload_request 1 (codes "a") (codes "hello") [])
            (vault_of 2)).1).0
        ≡ record { code = ok; message = codes "DOWNLOAD_OK"; body = codes "hello" })
unfolding has_dotdot contains starts_with perform
download-upload_example =
    download-upload same_password vulnerable writing reading empty_disk (vault_of 2) 1 2 0 1
      (codes "a") (codes "hello") [] [] two-Inv IsOpen-first IsOpen-second refl refl refl IsPlace-a
      refl (omega arith, tt) (omega arith) (omega arith) (omega arith)

-- The session 1 is a guest's and the session 2 an administrator's.
abbrev mixed : Vault
mixed =
    with_sessions
      (record (sessions_of 2) {
        heap = λ p. record (session_at p) { role = if p == 1 then guest else admin };
      })
      (vault_of 2)

-- The guest's request to delete a file is refused, and removes the file where the guest logs out in between.
refused_alone :
    ((handle_among same_password fixed calls quiet first_delete mixed).1.effects ≡ [])
    × ((handle_among same_password fixed calls
          (behind_unlock (log_out fixed 1))
          first_delete
          mixed).1.effects
        ≡ removes (codes "/data/a") ∷ [])
unfolding handle_among find_slot is_registered session_destroy session_lookup lookup_loop
    session_destroy_by_ptr destroy_loop remove_slot shift_down switch handle_delete file_delete cstr
refused_alone = (refl, refl)
