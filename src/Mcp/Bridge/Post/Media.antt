-- ===== src/Mcp/Bridge/Post/Media.antt =====
-- mcp/bridge.go: the media types of a request and of its answer.
use gortexa.Common.{
  String, string_eq, Bool, true, false, Option, none, some, List, [], ◌∷◌, ◌==◌, ◌||◌, ◌&&◌, not,
  if◌then◌else◌,
}
use gortexa.Common.Dict.{Dict, lookup}
use gortexa.Mcp.Bridge.{Wire}

-- An Accept range whose q is no number above 0 is not acceptable.
accepts : Wire → Option String → Bool
accepts w none = true
accepts w (some q) = w.positive q

is_json_range : Wire → String → Bool
is_json_range w t =
    t == "application/json" || (t == "application/*" || (t == "*/*" || w.has_json_suffix t))

is_event_stream_range : String → Bool
is_event_stream_range t = t == "text/event-stream" || t == "text/*"

-- The ranges that count for JSON, or for an event stream: `wanted` is the test on the media type.
module _ (w : Wire) (wanted : String → Bool) where
  range_is_wanted : Option (String × Dict String String) → Bool
  unfolding accepts
  range_is_wanted none = false
  range_is_wanted (some (t, params)) = accepts w (lookup "q" params) && wanted t

  unfoldable pub some_wanted : List String → Bool
  unfolding range_is_wanted
  some_wanted [] = false
  some_wanted (part ∷ parts) = range_is_wanted (w.media_type part) || some_wanted parts

-- negotiateResponseType
unfoldable pub negotiate_response_type : Wire → String → Option String
unfolding some_wanted is_json_range is_event_stream_range
negotiate_response_type w accept =
    if w.blank accept
    then some "application/json"
    else if some_wanted w is_event_stream_range (w.split_commas accept)
    then some "text/event-stream"
    else if some_wanted w (is_json_range w) (w.split_commas accept)
    then some "application/json"
    else none

json_media_type : Wire → Option (String × Dict String String) → Bool
json_media_type w none = false
json_media_type w (some (t, params)) = t == "application/json" || w.has_json_suffix t

-- isSupportedJSONContentType
unfoldable pub is_supported_json_content_type : Wire → String → Bool
unfolding json_media_type
is_supported_json_content_type w content_type =
    not (content_type == "") && json_media_type w (w.media_type content_type)
