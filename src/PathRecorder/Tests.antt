-- ===== src/PathRecorder/Tests.antt =====
-- A mux with some paths, and instances of its theorems. A handler is told by its name.
use apiserver.Base.{SetLists, String, Option, none, some, ◌≡◌, ◌≢◌, refl}
use apiserver.PathRecorder.{
  PathRecorderMux, new_path_recorder_mux, handle, handle_prefix, serve, build,
}
use apiserver.PathRecorder.Priority.{sort_reverse}
use apiserver.PathRecorder.Laws.{Served, Reachable, fresh, handling, serve-Served, serve-handle}

abbrev keys : SetLists
keys = record { list = λ ks. ks; list-Has_iff = λ ks k. ((λ h. h), (λ h. h)) }

abbrev empty : PathRecorderMux String
empty = new_path_recorder_mux keys "404"

abbrev health : PathRecorderMux String
health = handle keys "404" "" "/healthz" "health" empty

serves_exactly : serve health "/healthz" ≡ "health"
unfolding serve handle build
serves_exactly = refl

serves_nothing : serve health "/healthz/ping" ≡ "404"
unfolding serve handle sort_reverse build
serves_nothing = refl

-- The mux, with two prefixes.
with_prefixes : PathRecorderMux String → Option (PathRecorderMux String)
unfolding handle_prefix
with_prefixes m = elim (handle_prefix keys "404" "" "/apis/" "apis" m) [
  | none ↦ none
  | some n ↦ handle_prefix keys "404" "" "/apis/apps/" "apps" n
]

serve_with_prefixes : String → Option String
unfolding serve with_prefixes
serve_with_prefixes path = elim (with_prefixes health) [
  | none ↦ none
  | some m ↦ some (serve m path)
]

serves_longest : serve_with_prefixes "/apis/apps/v1" ≡ some "apps"
unfolding serve_with_prefixes with_prefixes serve handle_prefix handle sort_reverse build
serves_longest = refl

serves_shorter : serve_with_prefixes "/apis/batch" ≡ some "apis"
unfolding serve_with_prefixes with_prefixes serve handle_prefix handle sort_reverse build
serves_shorter = refl

Reachable-health : Reachable keys "404" health
Reachable-health = handling "" "/healthz" "health" fresh

serve-Served_example : Served health "404" "/healthz/ping" (serve health "/healthz/ping")
serve-Served_example = serve-Served keys "404" health "/healthz/ping" Reachable-health

serve-handle_example :
    (serve (handle keys "404" "" "/healthz" "other" health) "/healthz" ≡ "other")
    × ((other : String)
        → "/healthz" ≢ other
        → serve (handle keys "404" "" "/healthz" "other" health) other ≡ serve health other)
serve-handle_example = serve-handle keys "404" "" "/healthz" "other" health Reachable-health
