-- ===== src/PathRecorder.antt =====
-- The mux that records its paths: pkg/server/mux/pathrecorder.go. Serving a path is choosing its
-- handler. `stack` is the text of debug.Stack, and the lock, the name and logs are left out. `SetLists`
-- has sets.StringKeySet(...).List() of golib, on the keys of the map.
pub mod Priority
pub mod Laws
mod Tests
use apiserver.Base.{
  SetLists, ℕ, String, Bool, List, [], ◌∷◌, ◌++◌, Has, Option, none, some, Map, lookup, put, delete,
  ◌==◌, ◌↔◌, has_prefix, has_suffix, if◌then◌else◌, map,
}
use apiserver.PathRecorder.Priority.{sort_reverse}

pub record PathHandler (H : Type 0) : Type 0 where
  pub path_to_handler : Map H
  pub prefix_handlers : List (String × H)
  pub not_found_handler : H

pub record PathRecorderMux (H : Type 0) : Type 0 where
  pub not_found_handler : Option H
  pub path_to_handler : Map H
  pub prefix_to_handler : Map H
  pub mux : PathHandler H
  pub exposed_paths : List String
  pub path_stacks : Map String

-- The keys of a map, as a loop ranges over them.
abbrev pub keys_of : {A : Type 0} → Map A → List String
keys_of [] = []
keys_of ((k, v) ∷ m) = k ∷ keys_of m

abbrev pub add_entry : {H : Type 0} → Option H → String → List (String × H) → List (String × H)
add_entry none prefix rest = rest
add_entry (some handler) prefix rest = (prefix, handler) ∷ rest

-- The loop of refreshMuxLocked over the sorted keys. The key is one of the map.
abbrev pub with_handlers : {H : Type 0} → Map H → List String → List (String × H)
with_handlers handlers [] = []
with_handlers handlers (prefix ∷ keys) =
    add_entry (lookup prefix handlers) prefix (with_handlers handlers keys)

abbrev pub or_default : {H : Type 0} → Option H → H → H
or_default none h = h
or_default (some h) d = h

module _ {H : Type 0} (ks : SetLists) (not_found : H) where
  -- The handler that refreshMuxLocked makes; `not_found` is http.NotFoundHandler().
  unfoldable pub build : PathRecorderMux H → PathHandler H
  build m = record {
    path_to_handler = m.path_to_handler;
    prefix_handlers =
        with_handlers m.prefix_to_handler (sort_reverse (ks.list (keys_of m.prefix_to_handler)));
    not_found_handler = or_default m.not_found_handler not_found;
  }

  unfoldable pub refresh : PathRecorderMux H → PathRecorderMux H
  refresh m = record m { mux = build m }

  abbrev pub new_path_recorder_mux : PathRecorderMux H
  new_path_recorder_mux = record {
    not_found_handler = none;
    path_to_handler = [];
    prefix_to_handler = [];
    mux = record { path_to_handler = []; prefix_handlers = []; not_found_handler = not_found };
    exposed_paths = [];
    path_stacks = [];
  }

  unfoldable pub set_not_found_handler : H → PathRecorderMux H → PathRecorderMux H
  unfolding refresh
  set_not_found_handler h m = refresh (record m { not_found_handler = some h })

  abbrev track_callers : String → String → PathRecorderMux H → PathRecorderMux H
  track_callers stack path m = record m { path_stacks = put path stack m.path_stacks }

  unfoldable pub unlisted_handle : String → String → H → PathRecorderMux H → PathRecorderMux H
  unfolding refresh
  unlisted_handle stack path h m =
      refresh
        (record (track_callers stack path m) { path_to_handler = put path h m.path_to_handler })

  unfoldable pub handle : String → String → H → PathRecorderMux H → PathRecorderMux H
  unfolding refresh
  handle stack path h m = refresh (record (track_callers stack path m) {
    exposed_paths = m.exposed_paths ++ (path ∷ []);
    path_to_handler = put path h m.path_to_handler;
  })

  -- `none` is the panic.
  unfoldable pub unlisted_handle_prefix :
      String → String → H → PathRecorderMux H → Option (PathRecorderMux H)
  unfolding refresh
  unlisted_handle_prefix stack path h m =
      if has_suffix path "/"
      then some (
          refresh (record (track_callers stack path m) {
            prefix_to_handler = put path h m.prefix_to_handler;
          }))
      else none

  unfoldable pub handle_prefix :
      String → String → H → PathRecorderMux H → Option (PathRecorderMux H)
  unfolding refresh
  handle_prefix stack path h m =
      if has_suffix path "/"
      then some (
          refresh (record (track_callers stack path m) {
            exposed_paths = m.exposed_paths ++ (path ∷ []);
            prefix_to_handler = put path h m.prefix_to_handler;
          }))
      else none

  -- The loop of Unregister, which removes the first place of the path.
  abbrev remove_first : String → List String → List String
  remove_first path [] = []
  remove_first path (p ∷ ps) = if p == path then ps else p ∷ remove_first path ps

  unfoldable pub unregister : String → PathRecorderMux H → PathRecorderMux H
  unfolding refresh
  unregister path m = refresh (record m {
    path_to_handler = delete path m.path_to_handler;
    prefix_to_handler = delete path m.prefix_to_handler;
    path_stacks = delete path m.path_stacks;
    exposed_paths = remove_first path m.exposed_paths;
  })

-- The loop of pathHandler.ServeHTTP.
abbrev pub first_prefix : {H : Type 0} → String → List (String × H) → H → H
first_prefix path [] d = d
first_prefix path ((prefix, handler) ∷ rest) d =
    if has_prefix path prefix then handler else first_prefix path rest d

abbrev pub serve_path : {H : Type 0} → PathHandler H → String → H
serve_path h path =
    or_default (lookup path h.path_to_handler)
      (first_prefix path h.prefix_handlers h.not_found_handler)

-- ServeHTTP
unfoldable pub serve : {H : Type 0} → PathRecorderMux H → String → H
serve m path = serve_path m.mux path
