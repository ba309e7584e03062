-- ===== src/PeerFactory/Factory.antt =====
-- The state of PcFactory, its constructor and its destructor (libwebrtc/PcFactory.h, lines 37 to 57,
-- and PcFactory.cpp, lines 51 to 87).
use webrtc_echoes.Base.{ℕ, Bool, true, false, Option, none, some, List, [], ◌∷◌, ◌++◌}
use webrtc_echoes.Capture.State.{Capture}
use webrtc_echoes.Capture.Buffers.{create}

-- The codecs that the constructor chooses.
pub data Codecs : Type 0 where
  built_in libvpx_vp8 : Codecs

-- The dependencies handed to CreateModularPeerConnectionFactory. Threads and factories of the
-- library are present or not; the event log factory is built over the task queue factory.
pub record Dependencies : Type 0 where
  pub gain_controller1 : Bool
  pub gain_controller2 : Bool
  pub task_queue_factory : Bool
  pub signaling_thread_started : Bool
  pub event_log_over_task_queue : Bool
  pub audio_encoder_factory : Codecs
  pub audio_decoder_factory : Codecs
  pub video_encoder_factory : Codecs
  pub video_decoder_factory : Codecs
  pub adm : Option Capture
  pub audio_processing : Bool
  pub media_enabled : Bool

-- `has_factory` says whether _peerConnectionFactory is not null. A peer connection is known by a
-- number. `close_calls` lists the calls of Close, oldest first.
pub record Factory : Type 0 where
  pub has_factory : Bool
  pub dependencies : Option Dependencies
  pub peer_connections : List ℕ
  pub close_calls : List ℕ

-- `made` says whether CreateModularPeerConnectionFactory gives a factory, which is not looked at; `rec`
-- and `send` are what the memory of the new audio device holds.
unfoldable pub construct : Bool → List ℕ → List ℕ → Factory
construct made rec send = record {
  has_factory = made;
  dependencies = some (record {
    gain_controller1 = false;
    gain_controller2 = false;
    task_queue_factory = true;
    signaling_thread_started = true;
    event_log_over_task_queue = true;
    audio_encoder_factory = built_in;
    audio_decoder_factory = built_in;
    video_encoder_factory = libvpx_vp8;
    video_decoder_factory = libvpx_vp8;
    adm = some (create rec send);
    audio_processing = true;
    media_enabled = true;
  });
  peer_connections = [];
  close_calls = [];
}

-- The loop of the destructor over the peer connections.
unfoldable pub close_all : List ℕ → List ℕ → List ℕ
close_all [] calls = calls
close_all (pc ∷ pcs) calls = close_all pcs (calls ++ pc ∷ [])

unfoldable pub destroy : Factory → Factory
unfolding close_all
destroy f = record {
  has_factory = false;
  dependencies = none;
  peer_connections = [];
  close_calls = close_all f.peer_connections f.close_calls;
}
