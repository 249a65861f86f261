-- ===== src/Tests/Services.antt =====
-- The service that keeps blocks in flight, with a concrete way to write messages.
use pingfs.Base.{◌≡◌, [], ◌∷◌, ◌++◌, ok, arith, ℕ, if◌then◌else◌, ◌>>=◌, inr}
use pingfs.Base.Sets.{mem, add, remove}
use pingfs.BlockData.Data.{link}
use pingfs.BlockData.Block.{Block}
use pingfs.PingService.Translator.{Translates, pass_through_translator, from_response-to_request}
use pingfs.PingService.Service.{TrackFreedService, translate, process, free_block}
use pingfs.PingService.Circulate.{echo, process-other, process-echo, process-process_freed}
use pingfs.Tests.Codec.{serialize, parse, parse-serialize}

abbrev sent_block : Block
sent_block = record { block_id = 3; data_ = link (record { children = 1 ∷ 2 ∷ [] }) }

abbrev service : ℕ → TrackFreedService ℕ
service id = record {
  fs_id = 7;
  id_ = id;
  endpoint = 0;
  freed_ids = 5 ∷ [];
  sent = [];
  published = [];
}

from_response-to_request_example : Translates (pass_through_translator serialize parse)
from_response-to_request_example = from_response-to_request serialize parse parse-serialize

process-other_example :
    process
      (pass_through_translator serialize parse)
      (echo (translate (pass_through_translator serialize parse) sent_block (service 0)))
      (service 1)
    ≡ ok (service 1)
process-other_example =
    process-other serialize parse sent_block (service 0) (service 1) (inr (omega arith))

process-echo_example :
    process
      (pass_through_translator serialize parse)
      (echo (translate (pass_through_translator serialize parse) sent_block (service 0)))
      (service 0)
    ≡ ok (
        if mem 3 (5 ∷ [])
        then record (service 0) { freed_ids = remove 3 (5 ∷ []); published = [] ++ sent_block ∷ [] }
        else record (service 0) {
          sent =
              []
              ++ (0, translate (pass_through_translator serialize parse) sent_block (service 0))
                ∷ [];
          published = [] ++ sent_block ∷ [];
        })
process-echo_example = process-echo serialize parse parse-serialize sent_block (service 0)

process-process_freed_example :
    (process
        (pass_through_translator serialize parse)
        (echo (translate (pass_through_translator serialize parse) sent_block (service 0)))
        (free_block 3 (service 0))
      >>= process
          (pass_through_translator serialize parse)
          (echo (translate (pass_through_translator serialize parse) sent_block (service 0))))
    ≡ ok (record (service 0) {
      freed_ids = remove 3 (add 3 (5 ∷ []));
      sent =
          []
          ++ (0, translate (pass_through_translator serialize parse) sent_block (service 0)) ∷ [];
      published = ([] ++ sent_block ∷ []) ++ sent_block ∷ [];
    })
process-process_freed_example =
    process-process_freed serialize parse parse-serialize sent_block (service 0)
