-- ===== src/Portal/PostedExamples.antt =====
-- An upload and the delivery run after it, on sample data.
use mathlib.Core.List.{Memᴰ}
use doorito.Base.{arith, some, none, [], ◌∷◌, refl}
use doorito.World.{World}
use doorito.Common.Sample.{http, up, down, run, empty}
use doorito.Common.Transactions.{documented}
use doorito.Common.Webhook.{delivery_request}
use doorito.Common.Tasks.{deliver_outbox_events_task}
use doorito.Common.Outbox.Settling.{Answers}
use doorito.Common.Outbox.Fetch.{subscribed}
use doorito.Portal.Files.{settings, validate_file}
use doorito.Portal.Create.{create_upload_file}
use doorito.Portal.Storing.{row_of, event_of}
use doorito.Portal.Posted.{create_upload_file_posted}
use doorito.Portal.Examples.{platform, upload, draw}

http_answers : Answers http
http_answers log request = ground arith

abbrev listening : World
listening = record empty { db = record empty.db { endpoints = down ∷ up ∷ [] } }

create_upload_file_posted_example :
    let event =
      event_of documented platform settings
        (some 1)
        upload
        none
        draw
        listening
        (row_of documented platform settings (some 1) upload none draw listening "text/plain" 3) in
    let uploaded =
      (create_upload_file documented platform settings (some 1) upload none draw listening).1 in
    Memᴰ
      (delivery_request http up event)
      (deliver_outbox_events_task documented http run uploaded).1.requests
unfolding validate_file subscribed
create_upload_file_posted_example =
    create_upload_file_posted documented http http_answers platform settings (some 1) upload none
      draw run listening up "text/plain" 3 (refl, refl) (record { valid = tt; unclashed = tt })
      (omega arith) refl refl refl (omega arith) refl (Memᴰ.tail (Memᴰ.head refl), refl, refl)
