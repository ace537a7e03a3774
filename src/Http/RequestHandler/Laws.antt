-- ===== src/Http/RequestHandler/Laws.antt =====
-- What a client is told by the response of the function of HEAD.
use simple_serv.Common.{append-nil, append_assoc, ◌≡◌, refl, ap, ◌∙◌, [], ◌∷◌, ◌++◌, Bytes}
use simple_serv.Common.Dict.{Dict}
use simple_serv.Common.Dict.Sorted.{IsSorted, insert_sorted-last, All-before}
use simple_serv.Http.Status.{HttpStatusCode}
use simple_serv.Http.Message.{HttpRequest, HttpMessage, http_1_1, new_response}
use simple_serv.Http.RequestHandler.{IHeadRequestHandler, head_request, set_all}

set_all-IsSorted :
    (n : Dict Bytes) (m : HttpMessage)
    → IsSorted (m.headers ++ n)
    → set_all n m ≡ record m { headers = m.headers ++ n }
unfolding set_all
set_all-IsSorted [] m h = rw append-nil
set_all-IsSorted ((k, v) ∷ n) m h =
    ap (λ hs. set_all n (record m { headers = hs }))
      (insert_sorted-last k v m.headers (All-before k m.headers n v h))
    ∙ set_all-IsSorted n (record m { headers = m.headers ++ (k, v) ∷ [] }) (rw append_assoc h)
    ∙ rw append_assoc

-- If the headers that the handler gives are in strict key order, a HEAD response has exactly those
-- headers, no body and status 200.
pub head_request-IsSorted :
    (f : IHeadRequestHandler) (r : HttpRequest)
    → IsSorted (f r.path)
    → ((head_request f r).headers ≡ f r.path)
      × ((head_request f r).body ≡ [])
      × ((head_request f r).status_code ≡ HttpStatusCode.ok)
unfolding head_request
head_request-IsSorted f r h =
    let whole = set_all-IsSorted (f r.path) (new_response HttpStatusCode.ok http_1_1).message h in
    (ap (λ (m : HttpMessage). m.headers) whole, ap (λ (m : HttpMessage). m.body) whole, refl)
