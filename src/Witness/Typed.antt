-- ===== src/Witness/Typed.antt =====
-- A torrent's peers, asked for by an HTTP request.
use kedge.Base.{◌≡◌, refl, true, false, some, [], ◌∷◌}
use kedge.Base.Int.{pos}
use kedge.Bytes.{Bytes, codes, find, starts_with, substr, substr_from}
use kedge.Fault.{done}
use kedge.HttpUtil.{get, Request}
use kedge.Handlers.{sb_call, strip_query, act_of, flag_of, route_of}
use kedge.Handlers.Typed.{Gives, answer_shape}
use kedge.Sheath.Query.{PeerInfo, TorrentView}
use kedge.Sheath.Api.{Session, sheath_ops}
use kedge.Sheath.Api.Typed.{api_shapes, sb_call_typed}
use kedge.Witness.Samples.{Sha, sha_text, text, ask, Flags, sample_status}
use kedge.Witness.Adding.{sources, store, resumes}
use kedge.Witness.Toggle.{session}

abbrev peer : PeerInfo
peer = record {
  client = codes "kedge";
  ip = codes "10.0.0.2";
  port = 6881;
  flags = pos 1;
  is_utp = false;
  source = pos 1;
  progress_ppm = pos 500000;
  down_speed = pos 10;
  up_speed = pos 20;
  num_pieces = pos 3;
}

abbrev view : TorrentView Sha
view = record { status = sample_status; peers = peer ∷ []; files = []; file_status = [] }

abbrev with_peer : Session sources Flags Flags
with_peer = record session { view = λ s h. some view }

abbrev peers_path : Bytes
peers_path = codes "/api/torrent/0000000000000000000000000000000000000000/peers"

abbrev peers_uri : Bytes
peers_uri = codes "/torrent/0000000000000000000000000000000000000000/peers"

abbrev peers_request : Request
peers_request = ask get (codes "/api/torrent/0000000000000000000000000000000000000000/peers?v=1")

path_of_target : strip_query peers_request.target ≡ done peers_path
unfolding strip_query find starts_with substr
path_of_target = refl

sb_call_typed_example :
    Gives text (answer_shape api_shapes (route_of get peers_uri) (flag_of (codes "peers"))) (
      sb_call sha_text
        (sheath_ops sources with_peer store resumes)
        text
        peers_request
        (true, false))
unfolding strip_query find starts_with act_of substr substr_from
sb_call_typed_example =
    sb_call_typed sources with_peer store resumes text peers_request peers_uri peers_path
      (codes "peers") (true, false) refl path_of_target refl
