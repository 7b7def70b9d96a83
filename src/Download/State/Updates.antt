-- ===== src/Download/State/Updates.antt =====
-- The methods that update the channels and the telemetry of a download.
use multi_send.Base.{ℕ, true, ◌&&◌, ◌||◌, not, List, [], ◌∷◌, String, length, if◌then◌else◌}
use multi_send.Base.Int.{ℤ, pos, le_ℤ, add64}
use multi_send.Base.Text.{Text}
use multi_send.Base.Dict.{Dict, str_eq, at, has_key, put}
use multi_send.Base.Float.{FloatOps}
use multi_send.Scheduler.{Channel}
use multi_send.Manifest.{ChunkState}
use multi_send.Download.{LocalChannel, has_channel}
use multi_send.Download.State.{ChannelStatus, State, add_sample, queue_depth_of}

module _ (fl : FloatOps) where
  open fl use {Float, lit, of_int, fmul, fdiv, flt}

  abbrev pub zero_status : ChannelStatus fl
  zero_status = record {
    state = "";
    interface_name = "";
    local_ip = [];
    bytes_sent = pos 0;
    mbps_now = lit 0 0;
    mbps_avg = lit 0 0;
    failures = pos 0;
    last_error = [];
  }

  -- A change of `st.channels`, copied to the job.
  abbrev pub with_channels : State fl → Dict (ChannelStatus fl) → State fl
  with_channels st channels = record st {
    channels = channels;
    job = record st.job { channels = channels };
  }

  -- The two loops of refreshChannelStates.
  unfoldable pub mark_active : Dict (ChannelStatus fl) → List LocalChannel → Dict (ChannelStatus fl)
  unfolding at put
  mark_active statuses [] = statuses
  mark_active statuses (c ∷ cs) =
      mark_active
        (put statuses c.name (record (at zero_status statuses c.name) {
          state = "active";
          local_ip = c.ip;
          interface_name = c.name;
        }))
        cs

  unfoldable pub mark_offline :
      List LocalChannel → Dict (ChannelStatus fl) → List String → Dict (ChannelStatus fl)
  unfolding at put has_channel
  mark_offline channels statuses [] = statuses
  mark_offline channels statuses (n ∷ ns) =
      mark_offline channels
        (if has_channel channels n
          then statuses
          else put statuses n (record (at zero_status statuses n) { state = "offline" }))
        ns

  unfoldable pub refresh_channel_states : State fl → List LocalChannel → State fl
  unfolding mark_active mark_offline
  refresh_channel_states st channels =
      with_channels st
        (mark_offline channels (mark_active st.channels channels) ("cable" ∷ "wifi" ∷ []))

  unfoldable pub bump_channel_failure : State fl → String → Text → State fl
  unfolding at put
  bump_channel_failure st name e =
      let cs = at zero_status st.channels name in
      let failures = add64 cs.failures (pos 1) in
      with_channels st (
        put st.channels name (record cs {
          failures = failures;
          last_error = e;
          state = if le_ℤ (pos 3) failures then "cooldown" else "offline";
        }))

  unfoldable pub bump_channel_success : ℕ → State fl → String → ℤ → State fl
  unfolding at put
  bump_channel_success now st name bytes =
      let cs = at zero_status st.channels name in
      let sent = add64 cs.bytes_sent bytes in
      let st = with_channels st (
        put st.channels name
          (record cs { state = "active"; bytes_sent = sent; last_error = [] })) in
      record st {
        ch_samples = put st.ch_samples name (add_sample now sent (at [] st.ch_samples name));
      }

  -- channelStates
  abbrev pub channel_state : Dict ℤ → State fl → LocalChannel → Channel fl
  channel_state in_flight st c =
      let row : Channel fl = record {
        name = c.name;
        active = true;
        in_flight = at (pos 0) in_flight c.name;
        mbps30s = lit 0 0;
        failures = pos 0;
        last_error = [];
      } in
      if has_key st.channels c.name
      then (let cs = at zero_status st.channels c.name in
          record row { mbps30s = cs.mbps_avg; failures = cs.failures; last_error = cs.last_error })
      else row

  unfoldable pub channel_states : List LocalChannel → Dict ℤ → State fl → List (Channel fl)
  channel_states [] in_flight st = []
  channel_states (c ∷ cs) in_flight st =
      channel_state in_flight st c ∷ channel_states cs in_flight st

  -- The loop of bumpIdleGapsLocked, on idleGapMS.
  unfoldable pub bump_idle_from :
      Dict (ChannelStatus fl) → Dict ℤ → ℤ → Dict ℤ → List LocalChannel → Dict ℤ
  unfolding at put
  bump_idle_from statuses in_flight limit gaps [] = gaps
  bump_idle_from statuses in_flight limit gaps (c ∷ cs) =
      let state = (at zero_status statuses c.name).state in
      let busy = le_ℤ limit (at (pos 0) in_flight c.name) in
      bump_idle_from statuses in_flight limit
        (if not busy && (str_eq state "active" || str_eq state "offline")
          then put gaps c.name (add64 (at (pos 0) gaps c.name) (pos 100))
          else gaps)
        cs

  unfoldable pub bump_idle_gaps : State fl → List LocalChannel → Dict ℤ → ℤ → State fl
  unfolding bump_idle_from
  bump_idle_gaps st channels in_flight limit = record st {
    idle_gap_ms = bump_idle_from st.channels in_flight limit st.idle_gap_ms channels;
  }

  -- updatePipelineTelemetryLocked. (idleGapMS is made with the state: it is not nil.)
  unfoldable pub update_telemetry :
      State fl → List LocalChannel → Dict ℤ → List ChunkState → State fl
  unfolding queue_depth_of
  update_telemetry st channels in_flight pending = record st {
    job = record st.job {
      in_flight = in_flight;
      queue_depth = queue_depth_of channels (length pending);
      idle_gap_ms = st.idle_gap_ms;
    };
  }
