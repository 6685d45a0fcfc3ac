-- ===== src/Windows/Messages/Part3.antt =====
-- Cases of the `switch` of `OutputWindowCallbackMacro`, LeftSupport/LeftSupport/LeftWindows.cpp.
use mathlib.Core.List.{List, [], ◌∷◌}
use left_my_codes.Windows.Messages.Defs.{Case, always, unless_simple}

abbrev pub cases_3 : List Case
cases_3 =
    always "WM_MBUTTONDBLCLK" "双击鼠标中键"
    ∷ always "WM_MOUSEWHEEL" "当鼠标轮子转动时,发送本消息给当前拥有焦点的控件"
    ∷ always "WM_MOUSELAST"
        "WM_MBUTTONDBLCLK的别名,通常用于判断鼠标消息的范围,对应的还有WM_MOUSEFIRST,例如:if(message > =  WM_MOUSEFIRST)&&(message <= WM_MOUSELAST)"
    ∷ always "WM_PARENTNOTIFY" "当MDI子窗口被创建或被销毁,或用户按了一下鼠标键而光标在子窗口上时,发送本消息给其父窗"
    ∷ always "WM_ENTERMENULOOP" "发送本消息通知应用程序的主窗口已进入菜单循环模式"
    ∷ always "WM_EXITMENULOOP" "发送本消息通知应用程序的主窗口已退出菜单循环模式"
    ∷ always "WM_NEXTMENU" "当使用左箭头光标键或右箭头光标键在菜单条与系统菜单之间切换时,会发送本消息给应用程序,相关结构体:MDINEXTMENU"
    ∷ always "WM_SIZING" "当用户正在调整窗口大小时,发送本消息给窗口;通过本消息应用程序可监视窗口大小和位置,也可修改它们"
    ∷ always "WM_CAPTURECHANGED" "当它失去捕获的鼠标时,发送本消息给窗口"
    ∷ unless_simple "WM_MOVING" "当用户在移动窗口时发送本消息,通过本消息应用程序以监视窗口大小和位置,也可修改它们"
    ∷ always "WM_POWERBROADCAST" "本消息发送给应用程序来通知它有关电源管理事件,比如待机休眠时会发送本消息"
    ∷ always "WM_DEVICECHANGE" "当设备的硬件配置改变时,发送本消息给应用程序或设备驱动程序"
    ∷ always "WM_MDICREATE" "发送本消息给多文档应用程序的客户窗口来创建一个MDI子窗口"
    ∷ always "WM_MDIDESTROY" "发送本消息给多文档应用程序的客户窗口来关闭一个MDI子窗口"
    ∷ always "WM_MDIACTIVATE"
        "发送本消息给多文档应用程序的客户窗口通知客户窗口激活另一个MDI子窗口,当客户窗口收到本消息后,它发出WM_MDIACTIVE消息给MDI子窗口(未激活)来激活它"
    ∷ always "WM_MDIRESTORE" "发送本消息给MDI客户窗口,让子窗口从最大最小化恢复到原来的大小"
    ∷ always "WM_MDINEXT" "发送本消息给MDI客户窗口,激活下一个或前一个窗口"
    ∷ always "WM_MDIMAXIMIZE" "发送本消息给MDI客户窗口来最大化一个MDI子窗口"
    ∷ always "WM_MDITILE" "发送本消息给MDI客户窗口,以平铺方式重新排列所有MDI子窗口"
    ∷ always "WM_MDICASCADE" "发送本消息给MDI客户窗口,以层叠方式重新排列所有MDI子窗口"
    ∷ always "WM_MDIICONARRANGE" "发送本消息给MDI客户窗口重新排列所有最小化的MDI子窗口"
    ∷ always "WM_MDIGETACTIVE" "发送本消息给MDI客户窗口以找到激活的子窗口句柄"
    ∷ always "WM_MDISETMENU" "发送本消息给MDI客户窗口,用MDI菜单代替子窗口的菜单"
    ∷ always "WM_ENTERSIZEMOVE" "当某窗口进入移动或调整大小的模式循环时,本消息发送到该窗口"
    ∷ always "WM_EXITSIZEMOVE" "确定用户改变窗口大小或改变窗口位置的事件是何时完成的"
    ∷ always "WM_DROPFILES" "鼠标拖放时,放下事件产生时发送本消息,比如:文件拖放功能"
    ∷ always "WM_MDIREFRESHMENU" "发送本消息给多文档应用程序的客户窗口,根据当前MDI子窗口更新MDI框架窗口的菜单"
    ∷ always "WM_IME_SETCONTEXT" "应用程序的窗口激活时,系统将向应用程序发送WM_IME_SETCONTEXT消息,注:输入法相关"
    ∷ always "WM_IME_NOTIFY" "可使用WM_IME_NOTIFY消息来通知关于IME窗口状态的常规改变,注:输入法相关"
    ∷ always "WM_IME_CONTROL" "可使用WM_IME_CONTROL消息来改变字母组合窗口的位置,注:输入法相关"
    ∷ always "WM_IME_COMPOSITIONFULL"
        "用户接口窗口不能增加编码窗口的尺寸时,IME用户接口窗口将发送WM_IME_COMPOSITIONFULL消息,可不处理,注:输入法相关"
    ∷ always "WM_IME_SELECT" "系统发出WM_IME_SELECT以便选择一个新的IME输入法,注:输入法相关"
    ∷ always "WM_IME_CHAR" "当打开输入法输入文字时,会发送WM_IME_CHAR消息"
    ∷ always "WM_IME_REQUEST" "应用程序请求输入法时,触发发送本消息"
    ∷ always "WM_IME_KEYDOWN" "在输入法录字窗口中按下按键时,触发发送本消息"
    ∷ always "WM_IME_KEYUP" "在输入法录字窗口中释放按键时,触发发送本消息"
    ∷ always "WM_MOUSEHOVER" "鼠标移过控件时,触发发送本消息"
    ∷ always "WM_MOUSELEAVE" "鼠标离开控件时,触发发送本消息"
    ∷ always "WM_CUT" "应用程序发送本消息给一个编辑框或组合框来删除当前选择的文本"
    ∷ always "WM_COPY" "应用程序发送本消息给一个编辑框或组合框,以便用CF_TEXT格式复制当前选择的文本到剪贴板"
    ∷ always "WM_PASTE" "应用程序发送本消息给编辑框或组合框,以便从剪贴板中得到数据"
    ∷ always "WM_CLEAR" "应用程序发送本消息给编辑框或组合框,以清除当前选择的内容"
    ∷ always "WM_UNDO" "应用程序发送本消息给编辑框或组合框,以撤消最后一次操作"
    ∷ always "WM_RENDERFORMAT" "应用程序需要系统剪切板数据时,触发发送本消息"
    ∷ always "WM_RENDERALLFORMATS" "应用程序退出时在程序退出时,系统会给当前程序发送该消息,要求提供所有格式的剪帖板数据,避免造成数据丢失"
    ∷ always "WM_DESTROYCLIPBOARD" "当调用EmptyClipboard函数时,发送本消息给剪贴板的所有者"
    ∷ always "WM_DRAWCLIPBOARD" "当剪贴板的内容变化时,发送本消息给剪贴板观察链的首个窗口;它允许用剪贴板观察窗口来显示剪贴板的新内容"
    ∷ always "WM_PAINTCLIPBOARD" "当剪贴板包含CF_OWNERDIPLAY格式的数据,并且剪贴板观察窗口的客户区需要重画时,触发发送本消息"
    ∷ always "WM_VSCROLLCLIPBOARD" "当剪贴板查看器的垂直滚动条被单击时,触发发送本消息"
    ∷ always "WM_SIZECLIPBOARD"
        "当剪贴板包含CF_OWNERDIPLAY格式的数据,并且剪贴板观察窗口的客户区域的大小已改变时,本消息通过剪贴板观察窗口发送给剪贴板的所有者"
    ∷ always "WM_ASKCBFORMATNAME" "通过剪贴板观察窗口发送本消息给剪贴板的所有者,以请求一个CF_OWNERDISPLAY格式的剪贴板的名字"
    ∷ always "WM_CHANGECBCHAIN" "当一个窗口从剪贴板观察链中移去时,发送本消息给剪贴板观察链的首个窗口"
    ∷ always "WM_HSCROLLCLIPBOARD"
        "本消息通过一个剪贴板观察窗口发送给剪贴板的所有者,它发生在当剪贴板包含CFOWNERDISPALY格式的数据,并且有个事件在剪贴板观察窗的水平滚动条上,所有者应滚动剪贴板图像并更新滚动条的值"
    ∷ always "WM_QUERYNEWPALETTE" "本消息发送给将要收到焦点的窗口,本消息能使窗口在收到焦点时同时有机会实现逻辑调色板"
    ∷ always "WM_PALETTEISCHANGING" "当一个应用程序正要实现它的逻辑调色板时,发本消息通知所有的应用程序"
    ∷ always "WM_PALETTECHANGED" "本消息在一个拥有焦点的窗口实现它的逻辑调色板后,发送本消息给所有顶级并重叠的窗口,以此来改变系统调色板"
    ∷ always "WM_HOTKEY" "当用户按下由RegisterHotKey函数注册的热键时,发送本消息"
    ∷ always "WM_PRINT" "发送本消息给一个窗口请求在指定的设备上下文中绘制自身,可用于窗口截图,但对子控件截图时得到的是与子控件等大的黑块"
    ∷ always "WM_PRINTCLIENT" "送本消息给一个窗口请求在指定的设备上下文中绘制其客户区(最通常是在一个打印机设备上下文中)"
    ∷ always "WM_HANDHELDFIRST" "消息含义未知,搜索了整个Visual Studio 6的目录也只有其定义,却未见其使用的相关代码"
    ∷ always "WM_HANDHELDLAST" "消息含义未知,搜索了整个Visual Studio 6的目录也只有其定义,却未见其使用的相关代码"
    ∷ always "WM_AFXFIRST" "指定首个AFX消息(MFC)"
    ∷ always "WM_AFXLAST" "指定末个afx消息"
    ∷ always "WM_PENWINFIRST" "指定首个Pen Window消息,参见:PENWIN.H/WINUSER.H"
    ∷ always "WM_PENWINLAST" "指定末个Pen Window消息,参见:PENWIN.H/WINUSER.H"
    ∷ always "WM_APP" "用于帮助应用程序自定义私有消息,通常形式为:WM_APP + X"
    ∷ always "WM_USER" "用于帮助应用程序自定义私有消息,通常形式为:WM_USER + X"
    ∷ always "TTM_ACTIVATE" "动态停用和启用工具提示控件,TTM即为ToolTip Message"
    ∷ always "TTM_SETDELAYTIME" "使用本消息可指定工具提示控件显示提示文本时的时间延迟(持续时间)(毫秒)"
    ∷ always "TTM_ADDTOOLA" "为某窗口注册添加工具提示控件,相关结构体:TOOLINFO"
    ∷ always "TTM_ADDTOOLW" "为某窗口注册添加工具提示控件,相关结构体:TOOLINFO"
    ∷ always "TTM_DELTOOLA" "为某窗口去除工具提示控件,相关结构体:TOOLINFO"
    ∷ always "TTM_DELTOOLW" "为某窗口去除工具提示控件,相关结构体:TOOLINFO"
    ∷ always "TTM_NEWTOOLRECTA" "为某窗口设置工具提示控件的矩形大小(rect)"
    ∷ always "TTM_NEWTOOLRECTW" "为某窗口设置工具提示控件的矩形大小(rect)"
    ∷ always "TTM_RELAYEVENT" "用于把鼠标消息传递给一个工具提示控件,让其进行处理"
    ∷ always "TTM_GETTOOLINFOA" "从工具提示控件中获取TOOLINFO结构体"
    ∷ always "TTM_GETTOOLINFOW" "从工具提示控件中获取TOOLINFO结构体"
    ∷ always "TTM_SETTOOLINFOA" "用于向工具提示控件中设置TOOLINFO结构体"
    ∷ always "TTM_SETTOOLINFOW" "用于向工具提示控件中设置TOOLINFO结构体"
    ∷ always "TTM_HITTESTA" "获取工具提示控件是否受到点击的信息,即测试鼠标坐标点是否在工具提示控件绑定的矩形内点击"
    ∷ always "TTM_HITTESTW" "获取工具提示控件是否受到点击的信息,即测试鼠标坐标点是否在工具提示控件绑定的矩形内点击"
    ∷ always "TTM_GETTEXTA" "从工具提示控件中获取文本数据"
    ∷ always "TTM_GETTEXTW" "从工具提示控件中获取文本数据"
    ∷ always "TTM_UPDATETIPTEXTA" "用于对工具提示控件进行文本设置"
    ∷ always "TTM_UPDATETIPTEXTW" "用于对工具提示控件进行文本设置"
    ∷ always "TTM_GETTOOLCOUNT" "获取被工具提示控件所维护的工具的数量"
    ∷ always "TTM_ENUMTOOLSA" "获取当前是哪个工具提示控件在显示文本"
    ∷ always "TTM_ENUMTOOLSW" "获取当前是哪个工具提示控件在显示文本"
    ∷ always "TTM_GETCURRENTTOOLA" "获取工具提示控件中当前工具的信息"
    ∷ always "TTM_GETCURRENTTOOLW" "获取工具提示控件中当前工具的信息"
    ∷ always "TTM_WINDOWFROMPOINT" "用于子类化一个窗口过程,使之能让工具提示控件为鼠标下的窗口显示工具提示文本"
    ∷ always "TTM_TRACKACTIVATE" "获取工具提示控件中当前工具的信息"
    ∷ always "TTM_TRACKPOSITION" "设置跟踪工具提示控件的坐标"
    ∷ always "TTM_SETTIPBKCOLOR" "设置工具提示控件的窗口背景色"
    ∷ always "TTM_SETTIPTEXTCOLOR" "设置工具提示控件的文本前景色"
    ∷ always "TTM_GETDELAYTIME" "使用本消息可获以工具提示控件显示提示文本时的时间延迟(持续时间)(毫秒)"
    ∷ always "TTM_GETTIPBKCOLOR" "获取工具提示控件的窗口背景色"
    ∷ always "TTM_GETTIPTEXTCOLOR" "获取工具提示控件的文本前景色"
    ∷ always "TTM_SETMAXTIPWIDTH" "设置工具提示控件窗口的最大宽度(像素点)"
    ∷ always "TTM_GETMAXTIPWIDTH" "获取工具提示控件窗口的最大宽度(像素点)"
    ∷ always "TTM_SETMARGIN" "设置工具提示控件窗口的四周边空(像素点)"
    ∷ always "TTM_GETMARGIN" "获取工具提示控件窗口的四周边空(像素点)"
    ∷ always "TTM_POP" "从一个视图中去除已显示的工具提示控件"
    ∷ always "TTM_UPDATE" "强制工具提示控件重绘其窗口"
    ∷ always "LVM_FIRST"
        "指定Listview控件的首个消息,其它相关消息用LVM_FIRST + X的形式定义,比如:LVM_GETBKCOLOR为LVM_FIRST + 0"
    ∷ always "LVM_SETBKCOLOR" "设置Listview控件的背景色,宏:ListView_SetBkColor"
    ∷ always "LVM_GETIMAGELIST" "获取Listview控件的图片列表句柄,宏:ListView_GetImageList"
    ∷ always "LVM_SETIMAGELIST" "设置Listview控件的图片列表,宏:ListView_SetImageList"
    ∷ always "LVM_GETITEMCOUNT" "获取Listview控件的项目总数,宏:ListView_GetItemCount"
    ∷ always "LVM_GETITEMA" "获取Listview控件的项目,宏:ListView_GetItem"
    ∷ always "LVM_GETITEMW" "获取Listview控件的项目,宏:ListView_GetItem"
    ∷ always "LVM_SETITEMA" "设置Listview控件的项目,宏:ListView_SetItem"
    ∷ always "LVM_SETITEMW" "设置Listview控件的项目,宏:ListView_SetItem "
    ∷ always "LVM_INSERTITEMA" "向Listview控件插入项目,宏:ListView_InsertItem"
    ∷ always "LVM_INSERTITEMW" "向Listview控件插入项目,宏:ListView_InsertItem"
    ∷ always "LVM_DELETEITEM" "用于删除Listview控件中的一行项目,宏:ListView_DeleteItem"
    ∷ always "LVM_DELETEALLITEMS" "清空Listview控件所有项目,宏:ListView_DeleteAllItems"
    ∷ always "LVM_GETCALLBACKMASK" "获取Listview控件的回调掩码,宏:ListView_GetCallbackMask"
    ∷ always "LVM_SETCALLBACKMASK" "设置Listview控件的回调掩码,宏:ListView_SetCallbackMask"
    ∷ always "LVM_GETNEXTITEM" "获取Listview控件中的下一个项目,宏:ListView_GetNextItem"
    ∷ always "LVM_FINDITEMA" "在Listview控件中寻找项目,宏:ListView_FindItem"
    ∷ always "LVM_FINDITEMW" "在Listview控件中寻找项目,宏:ListView_FindItem"
    ∷ always "LVM_GETITEMRECT" "在Listview控件中获取指定项目的矩形范围,宏:ListView_GetItemRect"
    ∷ always "LVM_SETITEMPOSITION" "设置Listview控件的项目位置,宏:ListView_SetItemPosition"
    ∷ always "LVM_GETITEMPOSITION" "获取Listview控件的项目位置,宏:ListView_GetItemPosition"
    ∷ always "LVM_GETSTRINGWIDTHA" "在Listview控件中获取显示一个文本所需列宽,宏:ListView_GetStringWidth"
    ∷ always "LVM_GETSTRINGWIDTHW" "在Listview控件中获取显示一个文本所需列,宏:ListView_GetStringWidth"
    ∷ always "LVM_HITTEST" "在Listview控件中进行点击测试,判断某个鼠标坐标点是否落在Listview控件某个项目中,宏:ListView_HitTest"
    ∷ always "LVM_ENSUREVISIBLE"
        "Listview控件的某个项目保证能显示出来(可视),并决定一个项目的全部或部份是否可视,宏:ListView_EnsureVisible"
    ∷ always "LVM_SCROLL" "在Listview控件中移动滚动条,宏:ListView_Scroll"
    ∷ always "LVM_REDRAWITEMS" "在Listview控件中重绘项目,宏:ListView_RedrawItems"
    ∷ []
