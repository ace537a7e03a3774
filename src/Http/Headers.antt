-- ===== src/Http/Headers.antt =====
-- include/simpleserv/http/headers.hpp: the header fields and the names they have.
use simple_serv.Common.{List, [], ◌∷◌, Bytes, codes}

-- The constants of type `Header`; every field has the one `FieldType`.
pub data FieldName : Type 0 where
  cache_control connection date pragma trailer transfer_encoding upgrade via warning accept :
      FieldName
  accept_charset accept_encoding accept_language authorization expect from host if_match : FieldName
  if_modified_since if_none_match if_range if_unmodified_since max_forwards : FieldName
  proxy_authorization range referer te user_agent accept_ranges age etag location : FieldName
  proxy_authenticate retry_after server vary www_authenticate allow content_encoding : FieldName
  content_language content_length content_location content_md5 content_range content_type :
      FieldName
  expires last_modified : FieldName

unfoldable pub header_name : FieldName → Bytes
header_name cache_control = codes "Cache-Control"
header_name connection = codes "Connection"
header_name date = codes "Date"
header_name pragma = codes "Pragma"
header_name trailer = codes "Trailer"
header_name transfer_encoding = codes "Transfer-Encoding"
header_name upgrade = codes "Upgrade"
header_name via = codes "Via"
header_name warning = codes "Warning"
header_name accept = codes "Accept"
header_name accept_charset = codes "Accept-Charset"
header_name accept_encoding = codes "Accept-Encoding"
header_name accept_language = codes "Accept-Language"
header_name authorization = codes "Authorization"
header_name expect = codes "Expect"
header_name from = codes "From"
header_name host = codes "Host"
header_name if_match = codes "If-Match"
header_name if_modified_since = codes "If-Modified-Since"
header_name if_none_match = codes "If-None-Match "
header_name if_range = codes "If-Range"
header_name if_unmodified_since = codes "If-Unmodified-Since"
header_name max_forwards = codes "Max-Forwards"
header_name proxy_authorization = codes "Proxy-Authorization"
header_name range = codes "Range"
header_name referer = codes "Referer"
header_name te = codes "TE"
header_name user_agent = codes "User-Agent"
header_name accept_ranges = codes "Accept-Ranges"
header_name age = codes "Age"
header_name etag = codes "ETag"
header_name location = codes "Date"
header_name proxy_authenticate = codes "Proxy-Authenticate"
header_name retry_after = codes "Retry-After"
header_name server = codes "Server"
header_name vary = codes "Vary"
header_name www_authenticate = codes "WWW-Authenticate"
header_name allow = codes "Allow"
header_name content_encoding = codes "Content-Encoding"
header_name content_language = codes "Content-Language"
header_name content_length = codes "Content-Length"
header_name content_location = codes "Content-Location"
header_name content_md5 = codes "Content-MD5"
header_name content_range = codes "Content-Range"
header_name content_type = codes "Content-Type"
header_name expires = codes "Expires"
header_name last_modified = codes "Last-Modified"

abbrev pub general_headers : List FieldName
general_headers =
    cache_control ∷ connection ∷ date ∷ pragma ∷ trailer ∷ transfer_encoding ∷ upgrade ∷ via
    ∷ warning ∷ []

abbrev pub request_headers : List FieldName
request_headers =
    accept ∷ accept_charset ∷ accept_encoding ∷ accept_language ∷ authorization ∷ expect ∷ from
    ∷ if_match ∷ if_modified_since ∷ if_none_match ∷ if_range ∷ if_unmodified_since ∷ max_forwards
    ∷ proxy_authorization ∷ range ∷ referer ∷ te ∷ user_agent ∷ []

abbrev pub response_headers : List FieldName
response_headers =
    accept_ranges ∷ age ∷ etag ∷ location ∷ proxy_authenticate ∷ retry_after ∷ server ∷ vary
    ∷ www_authenticate ∷ []

abbrev pub entity_headers : List FieldName
entity_headers =
    allow ∷ content_encoding ∷ content_language ∷ content_length ∷ content_location ∷ content_md5
    ∷ content_range ∷ content_type ∷ expires ∷ last_modified ∷ []
