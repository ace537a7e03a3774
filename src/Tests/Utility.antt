-- ===== src/Tests/Utility.antt =====
-- Examples for the `utility` namespace, and for the functions of the methods.
use simple_serv.Common.{
  ℕ, suc, true, false, ◌≡◌, ◌≢◌, ◌↔◌, refl, some, [], ◌∷◌, ◌++◌, arith, Bytes, codes, All, length,
  find, str_lt, str_eq,
}
use simple_serv.Common.Dict.{insert_sorted, Dict, lookup}
use simple_serv.Common.Outcome.{returns}
use simple_serv.Utility.FileManager.{unexpected, disk_get_file, not_found}
use simple_serv.Utility.LockFreeQueue.{LockFreeQueue, push, pop, full}
use simple_serv.Utility.LockFreeQueue.Fifo.{
  IsValid, contents, Popped, contents-push, contents-pop, contents-push-full,
}
use simple_serv.Utility.Url.{
  from_string, searchpart, searchpart_from, find_from, is_reserved, percent_encode, percent_decode,
}
use simple_serv.Utility.Url.Percent.{percent_decode-percent_encode_iff}
use simple_serv.Utility.Url.Search.{searchpart_total}
use simple_serv.Utility.Url.Query.{Pairs, query_text, set_pairs, from_string-query_text}
use simple_serv.Http.Status.{HttpStatusCode}
use simple_serv.Http.RequestHandler.{PostResult, PostResultState, post_request, head_request}
use simple_serv.Http.RequestHandler.Laws.{head_request-IsSorted}
use simple_serv.Tests.Site.{root, site, site_descriptors, page_request}

abbrev zero_queue : LockFreeQueue ℕ
zero_queue = record { arr = λ _. 0; head = 2; tail = 2; size = 0 }

abbrev full_queue : LockFreeQueue ℕ
full_queue = record { arr = λ i. i; head = 0; tail = 2; size = 2 }

zero_queue-IsValid : IsValid 3 zero_queue
zero_queue-IsValid = record {
  head_lt = omega arith;
  tail_lt = omega arith;
  capacity_lt = omega arith;
}

full_queue-IsValid : IsValid 3 full_queue
full_queue-IsValid = record {
  head_lt = omega arith;
  tail_lt = omega arith;
  capacity_lt = omega arith;
}

zero_queue_room : full 3 zero_queue ≡ false
unfolding full
zero_queue_room = refl

full_queue-full : full 3 full_queue ≡ true
unfolding full
full_queue-full = refl

contents-push_example :
    (contents 3 (push 3 5 zero_queue).1 ≡ contents 3 zero_queue ++ 5 ∷ [])
    × IsValid 3 (push 3 5 zero_queue).1
contents-push_example = contents-push 3 5 zero_queue zero_queue-IsValid zero_queue_room

contents-pop_example :
    Popped 3 false full_queue (pop 3 false full_queue) (contents 3 full_queue)
    × IsValid 3 (pop 3 false full_queue).1
contents-pop_example = contents-pop 3 false full_queue full_queue-IsValid

contents-push-full_example :
    (contents 3 (push 3 5 full_queue).1 ≡ [])
    × (suc (length (contents 3 full_queue)) ≡ 3)
    × IsValid 3 (push 3 5 full_queue).1
contents-push-full_example = contents-push-full 3 5 full_queue full_queue-IsValid full_queue-full

percent_decode-percent_encode_iff_example :
    (percent_decode (percent_encode (codes "a b")) ≡ returns (codes "a b"))
    ↔ All (λ c. is_reserved c ≡ false) (codes "a b")
percent_decode-percent_encode_iff_example = percent_decode-percent_encode_iff (codes "a b")

disk_missing : disk_get_file site site_descriptors root ≡ unexpected (not_found root)
unfolding disk_get_file lookup str_eq
disk_missing = refl

-- Handlers with one answer
abbrev post_all : Bytes → Bytes → PostResult
post_all path body = record { state = PostResultState.created; body = body }

posted : (post_request post_all page_request).body ≢ []
unfolding post_request
posted = cc

abbrev age_header : Bytes → Dict Bytes
age_header path = (codes "Age", codes "0") ∷ []

head_request-IsSorted_example :
    ((head_request age_header page_request).headers ≡ age_header page_request.path)
    × ((head_request age_header page_request).body ≡ [])
    × ((head_request age_header page_request).status_code ≡ HttpStatusCode.ok)
head_request-IsSorted_example = head_request-IsSorted age_header page_request (tt, tt)

searchpart_total_example :
    searchpart_from 9 (codes "/a?k=v") 3 [] ≡ some (searchpart (codes "/a?k=v") 3)
searchpart_total_example = searchpart_total (codes "/a?k=v") 3 9 (omega arith)

abbrev two_pairs : Pairs
two_pairs = (codes "a", codes "b") ∷ (codes "c", codes "d=") ∷ []

from_string-query_text_example :
    from_string (codes "/x" ++ b'?' ∷ query_text two_pairs)
    ≡ record { path = codes "/x"; query = set_pairs two_pairs [] }
from_string-query_text_example =
    from_string-query_text (codes "/x") two_pairs (omega arith, (omega arith, tt))
      (
        (omega arith, tt),
        (omega arith, tt),
        (omega arith, tt),
        ((omega arith, tt), (omega arith, tt), (omega arith, (omega arith, tt)), tt),
      )
      (omega arith)

-- Path and Query
url_query : from_string (codes "/hello/world?foo=bar&baz=qux") ≡ record {
  path = codes "/hello/world";
  query = (codes "baz", codes "qux") ∷ (codes "foo", codes "bar") ∷ [];
}
unfolding from_string searchpart searchpart_from find_from find insert_sorted str_eq str_lt
    simple_serv.Utility.Url.path
url_query = refl
