-- ===== src/Sheath/Api/Toggle.antt =====
-- A toggle of a torrent by an HTTP request.
use kedge.Base.{◌≡◌, refl, ◌∙◌, not, some}
use kedge.Bytes.{Bytes, codes, bytes_eq}
use kedge.Fault.{done}
use kedge.Util.{IsHexText}
use kedge.HttpUtil.{put, Request, make_resp_204}
use kedge.Json.{Json}
use kedge.Handlers.{sb_call, torrent_by, put_torrent}
use kedge.Handlers.Torrent.{NoQuery, torrent_target, sb_call-target}
use kedge.Sheath.Adding.{Sources}
use kedge.Sheath.Control.{
  AreFlags, is_stopped, pause_or_resume, pause_or_resume_flips, pause_resume_torrent, Torrents,
}
use kedge.Sheath.Api.{Session, sheath_ops}

-- What is stored for a hash is found there.
pub record KeepsTorrents {Hash T S : Type 0} (ops : Torrents Hash T S) : Type 0 where
  pub find-store : (h : Hash) (t : T) (s : S) → ops.find_torrent h (ops.store h t s) ≡ some t

module _ (src : Sources) {T S : Type 0} (ses : Session src T S)
    (dir_store dir_resumes : Bytes) where
  -- If the API runs over the sheath's own operations, the library writes and reads hashes as forty
  -- lower case hex digits, its flags are as documented and a stored torrent is found again, then a
  -- PUT to /api/torrent/{hash}/toggle for a torrent that is found is answered with 204, and flips
  -- whether the user has stopped that torrent.
  pub toggle_by_put :
      (laws : IsHexText src.hash_text) (flags : AreFlags ses.flags)
      (keeps : KeepsTorrents ses.torrents) (clean : NoQuery (codes "toggle"))
      (serialize : Json → Bytes) (h : src.hash_text.Hash) (req : Request) (s : S) (t : T)
      → req.method ≡ put
      → req.target ≡ torrent_target src.hash_text laws h (codes "toggle") clean
      → ses.torrents.find_torrent h s ≡ some t
      → (s' : S) × (t' : T) × (sb_call src.hash_text
            (sheath_ops src ses dir_store dir_resumes)
            serialize
            req
            s
          ≡ done (s', some (make_resp_204 req)))
        × (ses.torrents.find_torrent h s' ≡ some t')
        × (is_stopped ses.flags t' ≡ not (is_stopped ses.flags t))
  unfolding torrent_by put_torrent bytes_eq sheath_ops pause_resume_torrent
  toggle_by_put laws flags keeps clean serialize h req s t m path e = (
    ses.torrents.store h (pause_or_resume ses.flags t) s,
    pause_or_resume ses.flags t,
    sb_call-target src.hash_text laws h (codes "toggle") clean
          (sheath_ops src ses dir_store dir_resumes) serialize req s path
        ∙ rw m (rw e refl),
    keeps.find-store h (pause_or_resume ses.flags t) s,
    (pause_or_resume_flips ses.flags flags t).0,
  )
