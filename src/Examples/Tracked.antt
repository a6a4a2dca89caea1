-- ===== src/Examples/Tracked.antt =====
-- The tracking of labels and annotations at concrete inputs.
use pangolin_kube_controller.Prelude.{
  ◌≡◌, ◌≢◌, ◌↔◌, refl, true, some, [], ◌∷◌, is_some, if◌then◌else◌,
}
use pangolin_kube_controller.Text.{Text, codes, text_eq}
use pangolin_kube_controller.Maps.{Map, lookup, entries, sort_keys, delete}
use pangolin_kube_controller.Maps.Laws.{In}
use pangolin_kube_controller.Json.{Codec, str, arr, nil, cons, str_items}
use pangolin_kube_controller.Protocol.TcpUdp.{EndpointSlice}
use pangolin_kube_controller.Apply.Tracked.{
  managed_label_keys_annotation, managed_anno_keys_annotation, annotation_value, listed,
  nonempty_keys, parse_managed_keys, marshal_managed_keys, tracked_update,
}
use pangolin_kube_controller.Apply.Tracked.Update.{after_update, tracked_update-keeps}
use pangolin_kube_controller.Apply.Tracked.RoundTrip.{Prints, parse_managed_keys-marshal}
use pangolin_kube_controller.Examples.Data.{stale_slice}

-- A codec that knows the lists `[]` and `["team"]`.
abbrev keys_codec : Codec
keys_codec = record {
  decode = λ t.
      if text_eq t (codes "[]") then some (arr nil) else some (arr (cons (str (codes "team")) nil));
  encode = λ v. some (codes "[\"team\"]");
}

-- A slice with a tracked label, and a label of somebody else.
abbrev tracked_before : EndpointSlice
tracked_before = record stale_slice {
  labels = some ((codes "team", codes "a") ∷ (codes "other", codes "b") ∷ []);
  annotations = some ((managed_label_keys_annotation, codes "[\"team\"]") ∷ []);
}

team_given : codes "team" ≢ []
team_given = cc

tracked_update-keeps_example :
    (lookup (codes "team") (entries (tracked_update keys_codec tracked_before stale_slice).labels)
      ≡ after_update
          (lookup (codes "team") (entries stale_slice.labels))
          (listed (codes "team") (
            parse_managed_keys keys_codec
              (annotation_value keys_codec tracked_before managed_label_keys_annotation)))
          (lookup (codes "team") (entries tracked_before.labels)))
    × (lookup
          (codes "team")
          (entries (tracked_update keys_codec tracked_before stale_slice).annotations)
        ≡ after_update
            (lookup (codes "team") (entries stale_slice.annotations))
            (listed (codes "team") (
              parse_managed_keys keys_codec
                (annotation_value keys_codec tracked_before managed_anno_keys_annotation)))
            (lookup (codes "team") (entries tracked_before.annotations)))
tracked_update-keeps_example =
    tracked_update-keeps keys_codec (codes "team") tracked_before stale_slice team_given

-- The tracked label goes, and the other stays.
dropped_test :
    (tracked_update keys_codec tracked_before stale_slice).labels
    ≡ some ((codes "other", codes "b") ∷ [])
unfolding tracked_update lookup text_eq delete
dropped_test = refl

abbrev team_labels : Map Text
team_labels = (codes "team", codes "a") ∷ []

team-Prints : Prints keys_codec (nonempty_keys (sort_keys team_labels)) (codes "[\"team\"]")
unfolding nonempty_keys sort_keys text_eq str_items
team-Prints = record { printed = refl; read_back = refl; nonempty = refl }

empty_read : keys_codec.decode (codes "[]") ≡ some (arr nil)
unfolding text_eq
empty_read = refl

parse_managed_keys-marshal_example :
    In (codes "team") (parse_managed_keys keys_codec (marshal_managed_keys keys_codec team_labels))
    ↔ ((is_some (lookup (codes "team") team_labels) ≡ true) × (codes "team" ≢ []))
parse_managed_keys-marshal_example =
    parse_managed_keys-marshal keys_codec team_labels (codes "[\"team\"]") (codes "team")
      team-Prints empty_read
