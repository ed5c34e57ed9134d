-- ===== src/Header/Status.antt =====
-- status.go: the text and the line of a status code.
use justhttp.Base.{
  ℕ, ◌||◌, Option, some, List, [], ◌∷◌, ◌++◌, ltb, ◌==◌, if◌then◌else◌, Bytes, codes,
}
use justhttp.Bytesconv.Uint.{append_uint}
use justhttp.Uri.Path.{◌then_if_done◌}

-- `statusMessages`.
abbrev status_messages : List (ℕ × Bytes)
status_messages =
    (100, codes "Continue")
    ∷ (101, codes "Switching Protocols")
    ∷ (102, codes "Processing")
    ∷ (103, codes "Early Hints")
    ∷ (200, codes "OK")
    ∷ (201, codes "Created")
    ∷ (202, codes "Accepted")
    ∷ (203, codes "Non-Authoritative Information")
    ∷ (204, codes "No Content")
    ∷ (205, codes "Reset Content")
    ∷ (206, codes "Partial Content")
    ∷ (207, codes "Multi-Status")
    ∷ (208, codes "Already Reported")
    ∷ (226, codes "IM Used")
    ∷ (300, codes "Multiple Choices")
    ∷ (301, codes "Moved Permanently")
    ∷ (302, codes "Found")
    ∷ (303, codes "See Other")
    ∷ (304, codes "Not Modified")
    ∷ (305, codes "Use Proxy")
    ∷ (307, codes "Temporary Redirect")
    ∷ (308, codes "Permanent Redirect")
    ∷ (400, codes "Bad Request")
    ∷ (401, codes "Unauthorized")
    ∷ (402, codes "Payment Required")
    ∷ (403, codes "Forbidden")
    ∷ (404, codes "Not Found")
    ∷ (405, codes "Method Not Allowed")
    ∷ (406, codes "Not Acceptable")
    ∷ (407, codes "Proxy Authentication Required")
    ∷ (408, codes "Request Timeout")
    ∷ (409, codes "Conflict")
    ∷ (410, codes "Gone")
    ∷ (411, codes "Length Required")
    ∷ (412, codes "Precondition Failed")
    ∷ (413, codes "Request Entity Too Large")
    ∷ (414, codes "Request URI Too Long")
    ∷ (415, codes "Unsupported Media Type")
    ∷ (416, codes "Requested Range Not Satisfiable")
    ∷ (417, codes "Expectation Failed")
    ∷ (418, codes "I'm a teapot")
    ∷ (421, codes "Misdirected Request")
    ∷ (422, codes "Unprocessable Entity")
    ∷ (423, codes "Locked")
    ∷ (424, codes "Failed Dependency")
    ∷ (426, codes "Upgrade Required")
    ∷ (428, codes "Precondition Required")
    ∷ (429, codes "Too Many Requests")
    ∷ (431, codes "Request Header Fields Too Large")
    ∷ (451, codes "Unavailable For Legal Reasons")
    ∷ (500, codes "Internal Server Error")
    ∷ (501, codes "Not Implemented")
    ∷ (502, codes "Bad Gateway")
    ∷ (503, codes "Service Unavailable")
    ∷ (504, codes "Gateway Timeout")
    ∷ (505, codes "HTTP Version Not Supported")
    ∷ (506, codes "Variant Also Negotiates")
    ∷ (507, codes "Insufficient Storage")
    ∷ (508, codes "Loop Detected")
    ∷ (510, codes "Not Extended")
    ∷ (511, codes "Network Authentication Required")
    ∷ []

abbrev unknown : Bytes
unknown = codes "Unknown Status Code"

abbrev find_message : ℕ → List (ℕ × Bytes) → Bytes
find_message code [] = unknown
find_message code (entry ∷ entries) =
    let later = find_message code entries in if entry.0 == code then entry.1 else later

-- `StatusMessage`, of a code that is not negative; the table is empty at the other codes.
unfoldable pub status_message : ℕ → Bytes
status_message code =
    if ltb code 100 || ltb 511 code then unknown else find_message code status_messages

-- `statusLine`: the codes up to `statusMessageMax` have theirs ready, in the same words. `none` does
-- not come about for a 64-bit int.
unfoldable pub status_line : ℕ → Option Bytes
unfolding append_uint status_message
status_line code = append_uint (codes "HTTP/1.1 ") code then_if_done λ line.
    some (((line ++ b' ' ∷ []) ++ status_message code) ++ b'\r' ∷ b'\n' ∷ [])
