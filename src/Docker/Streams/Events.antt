-- ===== src/Docker/Streams/Events.antt =====
-- What an event and a new target do to the subscriptions of the Docker tile, in
-- crates/tepegoz-tui/src/app.rs.
use tepegoz.Prelude.{
  ℕ, ◌≡◌, refl, ◌∙◌, ap, true, not, List, [], ◌∷◌, ◌++◌, arith, ◌==◌, Bool-cases, inl, inr,
  filter_by, is_empty,
}
use tepegoz.Logs.{
  LogsView, LogStream, stdout, stderr, ingest, end_stream, push_all, push_line, complete_lines,
  pending, set_pending, flush_pending,
}
use tepegoz.App.{send_envelope, draw_frame, unsubscribe}
use tepegoz.Daemon.{ScopeTarget}
use tepegoz.Docker.{DockerView, list, logs, DockerScope, app_action, subscribe_docker}
use tepegoz.Docker.Events.{
  DockerEvent, container_list, docker_unavailable, container_log, docker_stream_ended, other_event,
  to_logs, leave_logs,
}
use tepegoz.Docker.Streams.{subscribed, Watches, same_logs-Watches, left-Watches}

push_all-sub_id :
    (stream : LogStream) (texts : List (List ℕ)) (v : LogsView)
    → (push_all stream texts v).sub_id ≡ v.sub_id
unfolding push_all push_line
push_all-sub_id stream [] v = refl
push_all-sub_id stream (text ∷ texts) v =
    push_all-sub_id stream texts (push_line v (record { stream = stream; text = text }))

set_pending-sub_id :
    (stream : LogStream) (rest : List ℕ) (v : LogsView)
    → (set_pending stream rest v).sub_id ≡ v.sub_id
set_pending-sub_id stdout rest v = refl
set_pending-sub_id stderr rest v = refl

ingest-sub_id :
    (v : LogsView) (stream : LogStream) (bytes : List ℕ) → (ingest v stream bytes).sub_id ≡ v.sub_id
unfolding ingest
ingest-sub_id v stream bytes =
    let (completed, rest) = complete_lines [] (pending stream v ++ bytes) in
    push_all-sub_id stream completed (set_pending stream rest v) ∙ set_pending-sub_id stream rest v

flush_pending-sub_id :
    (stream : LogStream) (v : LogsView) → (flush_pending stream v).sub_id ≡ v.sub_id
unfolding flush_pending push_line
flush_pending-sub_id stream v = elim (Bool-cases (is_empty (pending stream v))) [
  | inl e ↦ rw e (set_pending-sub_id stream [] v)
  | inr e ↦ rw e (set_pending-sub_id stream [] v)
]

end_stream-sub_id : (v : LogsView) (reason : List ℕ) → (end_stream v reason).sub_id ≡ v.sub_id
unfolding end_stream
end_stream-sub_id v reason =
    flush_pending-sub_id stderr (flush_pending stdout v) ∙ flush_pending-sub_id stdout v

pub to_logs-Watches :
    (view : DockerView) (event : DockerEvent) (d : DockerScope) (next : ℕ) (subs : List ℕ)
    → d.view ≡ view
    → Watches d.view d.sub_id next subs
    → Watches (to_logs view event d).0.view (to_logs view event d).0.sub_id next subs
unfolding to_logs
to_logs-Watches list event d next subs v h = h
to_logs-Watches (logs l) (container_log stream bytes) d next subs v h =
    same_logs-Watches d.view l (ingest l stream bytes) d.sub_id next subs v
      (ingest-sub_id l stream bytes) h
to_logs-Watches (logs l) (docker_stream_ended reason) d next subs v h =
    same_logs-Watches d.view l (end_stream l reason) d.sub_id next subs v
      (end_stream-sub_id l reason) h
to_logs-Watches (logs l) (container_list containers source) d next subs v h = h
to_logs-Watches (logs l) (docker_unavailable reason) d next subs v h = h
to_logs-Watches (logs l) other_event d next subs v h = h

pub to_logs-subscribed :
    (view : DockerView) (event : DockerEvent) (d : DockerScope) (subs : List ℕ)
    → subscribed (to_logs view event d).1 subs ≡ subs
unfolding to_logs subscribed
to_logs-subscribed list event d subs = refl
to_logs-subscribed (logs l) (container_log stream bytes) d subs = refl
to_logs-subscribed (logs l) (docker_stream_ended reason) d subs = refl
to_logs-subscribed (logs l) (container_list containers source) d subs = refl
to_logs-subscribed (logs l) (docker_unavailable reason) d subs = refl
to_logs-subscribed (logs l) other_event d subs = refl

-- A new target gives up the transcript and the list, and subscribes to the list anew.
pub retargeted-Watches :
    (view : DockerView) (sub_id next : ℕ) (target : ScopeTarget) (subs : List ℕ)
    → Watches view sub_id next subs
    → Watches list sub_id next (
        subscribed
          (leave_logs view
            ++ app_action (send_envelope (unsubscribe sub_id))
              ∷ subscribe_docker sub_id target
              ∷ app_action draw_frame
              ∷ [])
          subs)
unfolding subscribed
retargeted-Watches list sub_id next target subs h =
    let own : (sub_id == sub_id) ≡ true = ground arith in
    (ap (λ s. sub_id ∷ filter_by (λ i. not (i == sub_id)) s) h.0 ∙ rw own refl, tt, h.2)
retargeted-Watches (logs l) sub_id next target subs h =
    let own : (sub_id == sub_id) ≡ true = ground arith in
    let gone = left-Watches (logs l) l sub_id next subs refl h in
    (ap (λ s. sub_id ∷ filter_by (λ i. not (i == sub_id)) s) gone.0 ∙ rw own refl, tt, h.2)
