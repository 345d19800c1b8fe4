-- ===== src/Script/ScriptStreamer.antt =====
-- chromium/third_party/blink/renderer/bindings/core/duk/script_streamer.h and .cpp: the watch over a
-- script that comes in, which compiles nothing while it does, and counts as compiled when there is
-- enough of it. Only `SuppressStreaming(kScriptTooSmall)` is called.
use blinkit.Prelude.{ℕ, leb, Bool, true, false, not, ◌&&◌, ◌||◌, if◌then◌else◌}

-- `NotStreamingReason`, as far as the code sets it.
pub data NotStreamingReason : Type 0 where
  invalid not_http script_too_small no_resource_buffer streamer_not_ready_on_get_source
        inline_script didnt_try_to_start_streaming error_occurred :
      NotStreamingReason

pub record Streamer : Type 0 where
  pub loading_finished : Bool
  pub have_enough_data_for_streaming : Bool
  pub parsing_finished : Bool
  pub streaming_suppressed : Bool

abbrev pub new_streamer : Streamer
new_streamer = record {
  loading_finished = false;
  have_enough_data_for_streaming = false;
  parsing_finished = false;
  streaming_suppressed = false;
}

-- `m_smallScriptThreshold`
abbrev pub small_script_threshold : ℕ
small_script_threshold = 30720

unfoldable pub has_enough_data_for_streaming : ℕ → Bool
has_enough_data_for_streaming size = leb small_script_threshold size

unfoldable pub is_streaming_finished : Streamer → Bool
is_streaming_finished s = s.parsing_finished || s.streaming_suppressed

unfoldable pub is_finished : Streamer → Bool
unfolding is_streaming_finished
is_finished s = s.loading_finished && is_streaming_finished s

-- `NotifyAppendData`, with the size of the buffer of the resource.
unfoldable pub notify_append_data : ℕ → Streamer → Streamer
unfolding has_enough_data_for_streaming
notify_append_data size s =
    if s.streaming_suppressed || s.have_enough_data_for_streaming
    then s
    else if has_enough_data_for_streaming size
    then record s { have_enough_data_for_streaming = true; parsing_finished = true }
    else s

-- `NotifyFinished`, before it tells the script.
unfoldable pub end_loading : Streamer → Streamer
end_loading s = record s {
  streaming_suppressed = s.streaming_suppressed || not s.have_enough_data_for_streaming;
  loading_finished = true;
}
