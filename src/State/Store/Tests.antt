-- ===== src/State/Store/Tests.antt =====
-- A process that sets two numbers on a server that is an association list, and the process after it.
use downloader.Base.{◌≡◌, refl, none, some, [], ◌∷◌}
use downloader.State.{Descriptor, current_block_head, archive_end_block_number}
use downloader.State.Store.{set, load}
use downloader.State.Store.Samples.{client, big, big-IsBig, client-IsStoring}
use downloader.State.Store.Recovery.{
  fresh, Reaches, starts, sets, load-Reaches, IsSynced, Reaches-IsSynced,
}

abbrev after_head : Descriptor
after_head = record fresh { current_block_head_number = some 7 }

abbrev after_end : Descriptor
after_end = record after_head { end_block_number = some 90 }

abbrev server : client.Server
server = (current_block_head, 7 ∷ []) ∷ []

abbrev final_server : client.Server
final_server = (current_block_head, 7 ∷ []) ∷ (archive_end_block_number, 90 ∷ []) ∷ []

set_head : set big client current_block_head 7 fresh [] ≡ (none, (after_head, server))
unfolding set
set_head = refl

set_end :
    set big client archive_end_block_number 90 after_head server ≡ (none, (after_end, final_server))
unfolding set
set_end = refl

loaded : load big client fresh [] ≡ (none, fresh)
unfolding load
loaded = refl

reached : Reaches big client after_end final_server
reached =
    sets archive_end_block_number 90 (sets current_block_head 7 (starts loaded) set_head) set_end

load-Reaches_example : load big client fresh final_server ≡ (none, after_end)
load-Reaches_example =
    load-Reaches big client after_end final_server big-IsBig client-IsStoring reached

Reaches-IsSynced_example : IsSynced big client after_end final_server
Reaches-IsSynced_example =
    Reaches-IsSynced big client after_end final_server big-IsBig client-IsStoring reached
