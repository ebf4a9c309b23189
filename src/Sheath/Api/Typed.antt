-- ===== src/Sheath/Api/Typed.antt =====
-- The answers of the API over the sheath's own operations.
use kedge.Base.{◌≡◌, drop}
use kedge.Bytes.{Bytes}
use kedge.Fault.{done}
use kedge.HttpUtil.{Request}
use kedge.Json.{Json}
use kedge.Json.Shape.{list_of, validate}
use kedge.Handlers.{flag_of, route_of, strip_query, act_of, sb_call}
use kedge.Handlers.Typed.{Shapes, AreTyped, answer_shape, Gives, sb_call-Gives}
use kedge.Sheath.Adding.{Sources}
use kedge.Sheath.Query.{session_stats_json, get_torrents}
use kedge.Sheath.Query.Shapes.{
  stats_shape, info_shape, status_shape, sync_shape, view_shape, stats-validate, info-validate,
  statuses-validate, torrent-validate, sync-validate,
}
use kedge.Sheath.Api.{Session, sheath_ops}

abbrev pub api_shapes : Shapes
api_shapes = record {
  session_info = info_shape;
  session_stats = stats_shape;
  sync_stats = sync_shape;
  torrents = list_of status_shape;
  torrent = view_shape;
}

module _ (src : Sources) {T S : Type 0} (ses : Session src T S)
    (dir_store dir_resumes : Bytes) where
  sheath_ops-AreTyped : AreTyped api_shapes (sheath_ops src ses dir_store dir_resumes)
  unfolding sheath_ops session_stats_json get_torrents validate
  sheath_ops-AreTyped = record {
    session_info = λ s. info-validate (ses.session_info s);
    session_stats =
        λ s. stats-validate (record (ses.stats s) { is_paused = ses.torrents.is_paused s });
    sync_stats = λ s. sync-validate src.hash_text (ses.stats s) (ses.all_handles s);
    torrents = λ s. statuses-validate src.hash_text (ses.statuses s);
    torrent = λ h q s. torrent-validate src.hash_text (ses.view s) h q;
  }

  -- If the API runs over the sheath's own operations, and uri and path are what stands before "?"
  -- in the target without its first four bytes and in the target, and act what stands in the path
  -- behind the byte after the hash, then a response with the status 200 is JSON text of a value
  -- that has, by the schema of the handler that uri and the method select and, for a torrent, of
  -- the part that act asks for, all members that are required, no member that is not named, and
  -- each member with a value of its type.
  pub sb_call_typed :
      (serialize : Json → Bytes) (req : Request) (uri path act : Bytes) (s : S)
      → strip_query (drop 4 req.target) ≡ done uri
      → strip_query req.target ≡ done path
      → act_of 53 path ≡ done act
      → Gives serialize
          (answer_shape api_shapes (route_of req.method uri) (flag_of act))
          (sb_call src.hash_text (sheath_ops src ses dir_store dir_resumes) serialize req s)
  sb_call_typed serialize req uri path act s u e h =
      sb_call-Gives src.hash_text (sheath_ops src ses dir_store dir_resumes) serialize req
        api_shapes sheath_ops-AreTyped uri path act s u e h
