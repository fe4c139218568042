-- ===== src/Examples/Synced.antt =====
-- A turn in which one file changes, from the server's workspace to the client's disk.
use claude_share.Base.{
  ◌≡◌, refl, sym, ap, ◌∙◌, true, false, Bytes, bytes_eq, bytes_eq_iff, codes, none, some, List, [],
  ◌∷◌, ◌++◌, inl, inr, Bool-cases, length, length-append, arith,
}
use claude_share.Base.Dict
use claude_share.Base.Dict.{bytes_key}
use claude_share.Base.Sort.{find}
use claude_share.Domain.{FileEntry, FileChange}
use claude_share.Domain.ByPath.{entry_at, IsManifest}
use claude_share.Localfs.{temp_prefix}
use claude_share.Localfs.Applied.{IsNoTemp, HasNoTemp}
use claude_share.Session.{finish_turn}
use claude_share.ClientApp.{App}
use claude_share.ClientApp.Converges.{OnDisk, Placed}
use claude_share.EndToEnd.Turn.{
  IsListed, file_of, InSync, IsConverged, after_messages, finish_turn-IsConverged,
}
use claude_share.Programs.Client.Wiring.{ports-OnDisk}
use claude_share.Examples.Toy.{json}
use claude_share.Examples.Wired.{
  root, nowhere, calm, with_hash, before, after, new_text, server, pushes, session, session-Same,
  taken, finished, chan, sock, env, project, client, desk,
}
use claude_share.Examples.Project.{joined}

abbrev old_text : Bytes → Bytes
old_text path = codes "old"

abbrev on_disk : OnDisk client calm nowhere root
on_disk = ports-OnDisk chan sock json calm env project (λ t. refl)

abbrev start : App client
start = record {
  sync_req = none;
  ready = none;
  turn_done = false;
  read_err = none;
  reading = true;
  outside = desk ((codes "/p/a", codes "old") ∷ []);
}

-- The only path of the two trees.
listed_is : (k : Bytes) → IsListed before after k → k ≡ codes "a"
unfolding find
listed_is k l = elim (Bool-cases (bytes_eq (codes "a") k)) [
  | inl q ↦ sym ((bytes_eq_iff (codes "a") k).0 q)
  | inr q ↦ elim l [ inl h ↦ absurd (h (rw q refl)) | inr h ↦ absurd (h (rw q refl)) ]
]

-- A temporary name is longer than the path.
not_temp : IsNoTemp calm (codes "/p/a")
not_temp path t h =
    let e = ap length h in
    omega (arith, e, length-append {0} (temp_prefix path) (codes "0123456789"))

start_free : HasNoTemp calm start.outside.disk
unfolding Dict.get
start_free path t =
    ground
      (arith, bytes_eq_iff (codes "/p/a") (temp_prefix path ++ codes "0123456789"), not_temp path t)

placed : Placed calm nowhere root (IsListed before after)
placed = record {
  place = λ k. codes "/p/a";
  joined = λ k l. rw (listed_is k l) joined;
  place-injective = λ j k lj lk e. listed_is j lj ∙ sym (listed_is k lk);
  not_temp = λ k l. not_temp;
}

start_holds :
    (k : Bytes)
    → IsListed before after k
    → Dict.get (codes "/p/a") start.outside.disk.files ≡ file_of (old_text k) (entry_at k before)
unfolding Dict.get find bytes_eq
start_holds k l = rw (listed_is k l) refl

other_content :
    (k : Bytes) (o e : FileEntry)
    → entry_at k before ≡ some o
    → entry_at k after ≡ some e
    → o.hash ≡ e.hash
    → old_text k ≡ new_text k
unfolding find
other_content k o e ho he same = elim (Bool-cases (bytes_eq (codes "a") k)) [
  | inl q ↦ let h = rw q at ho in let h' = rw q at he in cc (h, h', same)
  | inr q ↦ let h = rw q at ho in cc h
]

listed_once : (h : Bytes) → IsManifest (with_hash h)
unfolding find
listed_once h = (refl, tt)

in_sync :
    InSync client calm nowhere root on_disk
      (λ ch. 1)
      old_text
      new_text
      before
      after
      (listed_once (codes "h"))
      (listed_once [])
      placed
      start.outside.disk
unfolding placed
in_sync = record { no_temp = start_free; holds = start_holds; same_content = other_content }

finish_turn-IsConverged_example :
    (log : List (FileChange × Bytes)) × ((finish_turn server root none session).1.outside.rest.1
      ≡ [] ++ log)
    × ((finish_turn server root none session).1.pre_turn ≡ after)
    × IsConverged client calm nowhere root on_disk
        (λ ch. 1)
        old_text
        new_text
        before
        after
        (listed_once (codes "h"))
        (listed_once [])
        placed
        start.outside.disk
        (after_messages client calm nowhere root on_disk
          (λ ch. 1)
          old_text
          new_text
          before
          after
          (listed_once (codes "h"))
          (listed_once [])
          placed
          log
          start)
finish_turn-IsConverged_example =
    finish_turn-IsConverged client calm nowhere root on_disk (λ ch. 1) old_text new_text before
      after (listed_once (codes "h")) (listed_once []) placed server root pushes none session start
      session-Same refl taken finished refl in_sync
